-- ===== src/Fasthttp/Samples.antt =====
-- fasthttp/job.go: what a stored sample shows, at once and after later requests.
use plt.Base.{
  ℕ, suc, ◌+◌, ◌≤◌, ◌<◌, ◌≡◌, ap, ◌∙◌, none, some, ◌++◌, arith, if◌then◌else◌, is_empty, Text,
  codes, length, take, drop, length-append, length-take, take-length, take-append,
}
use plt.Base.Dict.{lookup, lookup-insert}
use plt.Report.PeekBody.{peek_body, dots}
use plt.Fasthttp.Job.{
  Producer, alias, Exchange, count_of, overwrite, update, shown, peek_slice, sample_of, job,
}

-- What the sample is meant to show.
abbrev pub sample_text : Exchange → Text
sample_text x =
    if is_empty x.encoding
    then peek_body x.body 1000
    else codes "<" ++ x.encoding ++ codes "-encoded-content>"

take-overwrite : (new old : Text) → take (length new) (overwrite old new) ≡ new
unfolding overwrite
take-overwrite new old = take-length new (drop (length new) old)

take_dotted :
    (l : ℕ) (body old : Text)
    → l < length body
    → take (l + 3) (overwrite old (take l body ++ dots)) ≡ take l body ++ dots
take_dotted l body old h =
    ap (λ n. take n (overwrite old (take l body ++ dots)))
      (omega (arith, length-append (take l body) dots, length-take l body))
    ∙ take-overwrite (take l body ++ dots) old

-- The stored sample shows what `PeekBody` is meant to give, as long as the buffer is not reused.
shown-peek_slice :
    (l : ℕ) (x : Exchange) (old : Text) (m : ℕ → Text)
    → shown (update x.buffer (peek_slice l x old).1 m) (peek_slice l x old).0 ≡ peek_body x.body l
unfolding shown update peek_slice peek_body
shown-peek_slice l x old m =
    ground (arith, take-overwrite x.body old, take_dotted l x.body (overwrite old x.body))

shown-sample_of :
    (x : Exchange) (old : Text) (m : ℕ → Text)
    → shown (update x.buffer (sample_of x old).1 m) (sample_of x old).0 ≡ sample_text x
unfolding sample_of shown
shown-sample_of x old m = ground (arith, shown-peek_slice 1000 x old m)

-- When the first response of a status has been counted, its status has a sample, which shows the
-- head of the body as `PeekBody` gives it, or the encoding's name.
pub job_sample :
    (x : Exchange) (p : Producer)
    → x.prepare ≡ none
    → x.failure ≡ none
    → count_of x.status p.resp_code ≡ 0
    → (lookup x.status (job x p).0.resp_body ≡ some (sample_of x (p.buffers x.buffer)).0)
      × (shown (job x p).0.buffers (sample_of x (p.buffers x.buffer)).0 ≡ sample_text x)
unfolding job
job_sample x p a b first =
    let old = p.buffers x.buffer in
    let (s, after) = sample_of x old in
    ground (
      arith,
      lookup-insert x.status x.status (suc (count_of x.status p.resp_code)) p.resp_code,
      lookup-insert x.status x.status s p.resp_body,
      shown-sample_of x old p.buffers,
    )

-- A sample that is a slice of a response's buffer does not stay: a later response that is read
-- into the same buffer, needs no sample of its own and has a body at least as long as the sample,
-- replaces what the old sample shows.
pub reused_buffer_changes_sample :
    (y : Exchange) (p : Producer) (code size : ℕ)
    → lookup code p.resp_body ≡ some (alias y.buffer size)
    → y.prepare ≡ none
    → y.failure ≡ none
    → 0 < count_of y.status p.resp_code
    → size ≤ length y.body
    → (lookup code (job y p).0.resp_body ≡ some (alias y.buffer size))
      × (shown (job y p).0.buffers (alias y.buffer size) ≡ take size y.body)
unfolding job shown update overwrite
reused_buffer_changes_sample y p code size held a b counted fits = ground (
  arith,
  lookup-insert y.status y.status (suc (count_of y.status p.resp_code)) p.resp_code,
  take-append size y.body (drop (length y.body) (p.buffers y.buffer)) fits,
)
