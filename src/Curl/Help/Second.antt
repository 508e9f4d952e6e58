-- ===== src/Curl/Help/Second.antt =====
-- curl/help.go: the other lines of the text of `curl --help`.
use Prim.Native.String.{String}
use plt.Base.{List, [], ◌∷◌}

unfoldable pub second_lines : List String
second_lines =
    " -#, --progress-bar  Display transfer progress as a progress bar"
    ∷ "     --proto PROTOCOLS  Enable/disable PROTOCOLS"
    ∷ "     --proto-default PROTOCOL  Use PROTOCOL for any URL missing a scheme"
    ∷ "     --proto-redir PROTOCOLS   Enable/disable PROTOCOLS on redirect"
    ∷ " -x, --proxy [PROTOCOL://]HOST[:PORT]  Use proxy on given port"
    ∷ "     --proxy-anyauth  Pick \"any\" proxy authentication method (H)"
    ∷ "     --proxy-basic   Use Basic authentication on the proxy (H)"
    ∷ "     --proxy-digest  Use Digest authentication on the proxy (H)"
    ∷ "     --proxy-cacert FILE CA certificate to verify peer against for proxy (SSL)"
    ∷ "     --proxy-capath DIR CA directory to verify peer against for proxy (SSL)"
    ∷ "     --proxy-cert CERT[:PASSWD] Client certificate file and password for proxy (SSL)"
    ∷ "     --proxy-cert-type TYPE Certificate file type (DER/PEM/ENG) for proxy (SSL)"
    ∷ "     --proxy-ciphers LIST SSL ciphers to use for proxy (SSL)"
    ∷ "     --proxy-crlfile FILE Get a CRL list in PEM format from the given file for proxy"
    ∷ "     --proxy-insecure Allow connections to SSL sites without certs for proxy (H)"
    ∷ "     --proxy-key KEY Private key file name for proxy (SSL)"
    ∷ "     --proxy-key-type TYPE Private key file type for proxy (DER/PEM/ENG) (SSL)"
    ∷ "     --proxy-negotiate  Use HTTP Negotiate (SPNEGO) authentication on the proxy (H)"
    ∷ "     --proxy-ntlm    Use NTLM authentication on the proxy (H)"
    ∷ "     --proxy-header LINE Pass custom header LINE to proxy (H)"
    ∷ "     --proxy-pass PASS Pass phrase for the private key for proxy (SSL)"
    ∷ "     --proxy-ssl-allow-beast Allow security flaw to improve interop for proxy (SSL)"
    ∷ "     --proxy-tlsv1   Use TLSv1 for proxy (SSL)"
    ∷ "     --proxy-tlsuser USER TLS username for proxy"
    ∷ "     --proxy-tlspassword STRING TLS password for proxy"
    ∷ "     --proxy-tlsauthtype STRING TLS authentication type for proxy (default SRP)"
    ∷ "     --proxy-service-name NAME  SPNEGO proxy service name"
    ∷ "     --service-name NAME  SPNEGO service name"
    ∷ " -U, --proxy-user USER[:PASSWORD]  Proxy user and password"
    ∷ "     --proxy1.0 HOST[:PORT]  Use HTTP/1.0 proxy on given port"
    ∷ " -p, --proxytunnel   Operate through a HTTP proxy tunnel (using CONNECT)"
    ∷ "     --pubkey KEY    Public key file name (SSH)"
    ∷ " -Q, --quote CMD     Send command(s) to server before transfer (F/SFTP)"
    ∷ "     --random-file FILE  File for reading random data from (SSL)"
    ∷ " -r, --range RANGE   Retrieve only the bytes within RANGE"
    ∷ "     --raw           Do HTTP \"raw\"; no transfer decoding (H)"
    ∷ " -e, --referer       Referer URL (H)"
    ∷ " -J, --remote-header-name  Use the header-provided filename (H)"
    ∷ " -O, --remote-name   Write output to a file named as the remote file"
    ∷ "     --remote-name-all  Use the remote file name for all URLs"
    ∷ " -R, --remote-time   Set the remote file's time on the local output"
    ∷ " -X, --request COMMAND  Specify request command to use"
    ∷ "     --resolve HOST:PORT:ADDRESS  Force resolve of HOST:PORT to ADDRESS"
    ∷ "     --retry NUM   Retry request NUM times if transient problems occur"
    ∷ "     --retry-connrefused  Retry on connection refused (use with --retry)"
    ∷ "     --retry-delay SECONDS  Wait SECONDS between retries"
    ∷ "     --retry-max-time SECONDS  Retry only within this period"
    ∷ "     --sasl-ir       Enable initial response in SASL authentication"
    ∷ " -S, --show-error    Show error. With -s, make curl show errors when they occur"
    ∷ " -s, --silent        Silent mode (don't output anything)"
    ∷ "     --socks4 HOST[:PORT]  SOCKS4 proxy on given host + port"
    ∷ "     --socks4a HOST[:PORT]  SOCKS4a proxy on given host + port"
    ∷ "     --socks5 HOST[:PORT]  SOCKS5 proxy on given host + port"
    ∷ "     --socks5-hostname HOST[:PORT]  SOCKS5 proxy, pass host name to proxy"
    ∷ "     --socks5-gssapi-service NAME  SOCKS5 proxy service name for GSS-API"
    ∷ "     --socks5-gssapi-nec  Compatibility with NEC SOCKS5 server"
    ∷ " -Y, --speed-limit RATE  Stop transfers below RATE for 'speed-time' secs"
    ∷ " -y, --speed-time SECONDS  Trigger 'speed-limit' abort after SECONDS (default: 30)"
    ∷ "     --ssl           Try SSL/TLS (FTP, IMAP, POP3, SMTP)"
    ∷ "     --ssl-reqd      Require SSL/TLS (FTP, IMAP, POP3, SMTP)"
    ∷ " -2, --sslv2         Use SSLv2 (SSL)" ∷ " -3, --sslv3         Use SSLv3 (SSL)"
    ∷ "     --ssl-allow-beast  Allow security flaw to improve interop (SSL)"
    ∷ "     --ssl-no-revoke    Disable cert revocation checks (WinSSL)"
    ∷ "     --stderr FILE   Where to redirect stderr (use \"-\" for stdout)"
    ∷ "     --suppress-connect-headers  Suppress proxy CONNECT response headers"
    ∷ "     --tcp-nodelay   Use the TCP_NODELAY option" ∷ "     --tcp-fastopen  Use TCP Fast Open"
    ∷ " -t, --telnet-option OPT=VAL  Set telnet option"
    ∷ "     --tftp-blksize VALUE  Set TFTP BLKSIZE option (must be >512)"
    ∷ "     --tftp-no-options  Do not send TFTP options requests"
    ∷ " -z, --time-cond TIME   Transfer based on a time condition"
    ∷ " -1, --tlsv1         Use >= TLSv1 (SSL)" ∷ "     --tlsv1.0       Use TLSv1.0 (SSL)"
    ∷ "     --tlsv1.1       Use TLSv1.1 (SSL)" ∷ "     --tlsv1.2       Use TLSv1.2 (SSL)"
    ∷ "     --tlsv1.3       Use TLSv1.3 (SSL)"
    ∷ "     --tls-max VERSION  Use TLS up to VERSION (SSL)"
    ∷ "     --trace FILE    Write a debug trace to FILE"
    ∷ "     --trace-ascii FILE  Like --trace, but without hex output"
    ∷ "     --trace-time    Add time stamps to trace/verbose output"
    ∷ "     --tr-encoding   Request compressed transfer encoding (H)"
    ∷ " -T, --upload-file FILE  Transfer FILE to destination"
    ∷ "     --url URL       URL to work with" ∷ " -B, --use-ascii     Use ASCII/text transfer"
    ∷ " -u, --user USER[:PASSWORD]  Server user and password" ∷ "     --tlsuser USER  TLS username"
    ∷ "     --tlspassword STRING  TLS password"
    ∷ "     --tlsauthtype STRING  TLS authentication type (default: SRP)"
    ∷ "     --unix-socket PATH    Connect through this Unix domain socket"
    ∷ "     --abstract-unix-socket PATH Connect to an abstract Unix domain socket"
    ∷ " -A, --user-agent STRING  Send User-Agent STRING to server (H)"
    ∷ " -v, --verbose       Make the operation more talkative"
    ∷ " -V, --version       Show version number and quit"
    ∷ " -w, --write-out FORMAT  Use output FORMAT after completion"
    ∷ "     --xattr         Store metadata in extended file attributes"
    ∷ " -q, --disable       Disable .curlrc (must be first parameter)" ∷ []
