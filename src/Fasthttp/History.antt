-- ===== src/Fasthttp/History.antt =====
-- fasthttp/job.go: what `RequestCounts` tells after any sequence of requests, against a histogram.
use mathlib.Core.Path.{fun_ext}
use plt.Base.{
  ℕ, suc, ◌≡◌, refl, ap, ◌∙◌, Bool, ◌&&◌, List, [], ◌∷◌, arith, ◌==◌, if◌then◌else◌, decimal, map,
}
use plt.Base.Dict.{lookup}
use plt.Nethttp.Itoa.{text_eq-decimal, count_at}
use plt.Nethttp.Counts.{is_none}
use plt.Fasthttp.Job.{Producer, Exchange, count_of, job, is_took, request_counts, job_counts}

-- One request after another.
unfoldable pub send_all : List Exchange → Producer → Producer
send_all [] p = p
send_all (x ∷ xs) p = send_all xs (job x p).0

-- The histogram: a request that `PrepareRequest` and the client let through adds one to its status.
abbrev pub Histogram : Type 0
Histogram = ℕ → ℕ

abbrev pub is_answered : Exchange → Bool
is_answered x = is_none x.prepare && is_none x.failure

abbrev pub tally : Exchange → Histogram → Histogram
tally x h code = if is_answered x && x.status == code then suc (h code) else h code

unfoldable pub tally_all : List Exchange → Histogram → Histogram
tally_all [] h = h
tally_all (x ∷ xs) h = tally_all xs (tally x h)

-- The histogram that a client sees through the keys of `RequestCounts`.
abbrev pub seen : Producer → Histogram
seen p code = count_at (decimal code) (request_counts p)

count_at-decimal :
    (code : ℕ) (m : List (ℕ × ℕ))
    → count_at (decimal code) (map (λ e. (decimal e.0, e.1)) m) ≡ count_of code m
unfolding count_at count_of lookup
count_at-decimal code [] = refl
count_at-decimal code (e ∷ m) = ground (arith, text_eq-decimal e.0 code, count_at-decimal code m)

pub seen-count_of : (p : Producer) (code : ℕ) → seen p code ≡ count_of code p.resp_code
unfolding request_counts
seen-count_of p code = count_at-decimal code p.resp_code

is_took-answered : (x : Exchange) (p : Producer) → is_took (job x p).1 ≡ is_answered x
unfolding job
is_took-answered x p = ground arith

seen-job : (x : Exchange) (p : Producer) → seen (job x p).0 ≡ tally x (seen p)
seen-job x p = fun_ext (λ code. ground (
  arith,
  seen-count_of p code,
  seen-count_of (job x p).0 code,
  job_counts x p code,
  is_took-answered x p,
))

-- Whatever the requests meet, `RequestCounts` tells the histogram of the answers: it is taken from
-- one histogram to the next by each request as the histogram itself is.
pub send_all_refines :
    (xs : List Exchange) (p : Producer) → seen (send_all xs p) ≡ tally_all xs (seen p)
unfolding send_all tally_all
send_all_refines [] p = refl
send_all_refines (x ∷ xs) p = send_all_refines xs (job x p).0 ∙ ap (tally_all xs) (seen-job x p)
