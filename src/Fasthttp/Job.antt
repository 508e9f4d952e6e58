-- ===== src/Fasthttp/Job.antt =====
-- fasthttp/job.go: the producer's state, `Job`, `RequestCounts` and the counting connection. The
-- request and response objects are the library's; their outcome is an argument.
use plt.Base.{
  ℕ, suc, ◌+◌, ◌≡◌, Bool, false, true, ◌&&◌, Option, none, some, List, ◌++◌, map, arith, ltb, ◌==◌,
  if◌then◌else◌, is_empty, Text, codes, decimal, leb, length, take, drop,
}
use plt.Base.Dict.{lookup, insert, lookup-insert}
use plt.Loadgen.Runner.{Err}
use plt.Report.Utf8.{valid}
use plt.Report.PeekBody.{dots, non_printable}

-- A stored sample: bytes of its own, or a slice of the response's pooled buffer.
pub data Sample : Type 0 where
  owned : Text → Sample
  alias : (buffer size : ℕ) → Sample

-- `buffers` is the memory of the library's pooled response buffers, which outlives a response.
pub record Producer : Type 0 where
  pub bytes_written : ℕ
  pub bytes_read : ℕ
  pub resp_code : List (ℕ × ℕ)
  pub resp_body : List (ℕ × Sample)
  pub buffers : ℕ → Text
  pub log : Text

unfoldable pub conn_read : ℕ → Producer → Producer
conn_read n p = record p { bytes_read = p.bytes_read + n }

unfoldable pub conn_write : ℕ → Producer → Producer
conn_write n p = record p { bytes_written = p.bytes_written + n }

-- What the request meets: the outcomes of `PrepareRequest` and `client.Do`, and the response.
pub record Exchange : Type 0 where
  pub prepare : Option Err
  pub failure : Option Err
  pub status : ℕ
  pub encoding : Text
  pub body : Text
  pub buffer : ℕ
  pub capacity : ℕ
  pub elapsed : ℕ

pub data Result : Type 0 where
  took : ℕ → Result
  failed : Err → Result

-- A body is read into a buffer over what the buffer held.
unfoldable pub overwrite : Text → Text → Text
overwrite old new = new ++ drop (length new) old

unfoldable pub update : ℕ → Text → (ℕ → Text) → ℕ → Text
update k t m j = if k == j then t else m j

-- The bytes that a sample shows.
unfoldable pub shown : (ℕ → Text) → Sample → Text
shown buffers (owned t) = t
shown buffers (alias b size) = take size (buffers b)

-- A missing key of a Go map reads as 0.
unfoldable pub count_of : ℕ → List (ℕ × ℕ) → ℕ
count_of code m = elim (lookup code m) [ none ↦ 0 | some n ↦ n ]

-- `PeekBody` of the response's body: the slice of the buffer, with the dots appended in place if the
-- buffer's capacity allows, or bytes of its own. The second part is the buffer afterwards.
unfoldable pub peek_slice : ℕ → Exchange → Text → Sample × Text
peek_slice l x old =
    let now = overwrite old x.body in
    let too_long = ltb l (length x.body) in
    if valid (if too_long then take l x.body else x.body)
    then (if too_long
        then (if leb (l + 3) x.capacity
            then (alias x.buffer (l + 3), overwrite now (take l x.body ++ dots))
            else (owned (take l x.body ++ dots), now))
        else (alias x.buffer (length x.body), now))
    else (owned non_printable, now)

unfoldable pub sample_of : Exchange → Text → Sample × Text
sample_of x old =
    if is_empty x.encoding
    then peek_slice 1000 x old
    else (owned (codes "<" ++ x.encoding ++ codes "-encoded-content>"), overwrite old x.body)

-- What `Job` does once the response has come: the body stands in a pooled buffer, and the mutex,
-- which every path gives back, guards the counts and samples.
unfoldable pub count_response : Exchange → Producer → Producer
unfolding count_of
count_response x p =
    let counts = insert x.status (suc (count_of x.status p.resp_code)) p.resp_code in
    let (sample, after) = sample_of x (p.buffers x.buffer) in
    if count_of x.status counts == 1
    then record p {
      resp_code = counts;
      resp_body = insert x.status sample p.resp_body;
      buffers = update x.buffer after p.buffers;
    }
    else record p {
      resp_code = counts;
      buffers = update x.buffer (overwrite (p.buffers x.buffer) x.body) p.buffers;
    }

unfoldable pub job : Exchange → Producer → Producer × Result
unfolding count_response
job x p = elim x.prepare [
  | some e ↦ (p, failed e)
  | none ↦ elim x.failure [ some e ↦ (p, failed e) | none ↦ (count_response x p, took x.elapsed) ]
]

unfoldable pub request_counts : Producer → List (Text × ℕ)
request_counts p = map (λ e. (decimal e.0, e.1)) p.resp_code

abbrev pub is_took : Result → Bool
is_took (took _) = true
is_took (failed _) = false

-- `Job` returns a time exactly if it counts the response, once and under its status.
pub job_counts :
    (x : Exchange) (p : Producer) (code : ℕ)
    → count_of code (job x p).0.resp_code ≡ (
        if is_took (job x p).1 && x.status == code
        then suc (count_of code p.resp_code)
        else count_of code p.resp_code)
unfolding job
job_counts x p code =
    ground (arith, lookup-insert x.status code (suc (count_of x.status p.resp_code)) p.resp_code)
