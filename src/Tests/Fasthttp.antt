-- ===== src/Tests/Fasthttp.antt =====
-- fasthttp at two responses that share a pooled buffer.
use plt.Base.{some, ◌++◌, decimal, ℕ, ◌≡◌, refl, none, [], ◌∷◌, arith, Text, codes}
use plt.Base.Dict.{lookup}
use plt.Report.PeekBody.{peek_body}
use plt.Fasthttp.Job.{Producer, alias, Exchange, count_of, shown, sample_of, job}
use plt.Fasthttp.Summary.{init_producer, count_lines}
use plt.Nethttp.Itoa.{count_at}
use plt.Base.Dict.{insert, without}
use plt.Fasthttp.Job.{request_counts, peek_slice}
use plt.Fasthttp.History.{send_all}
use plt.Fasthttp.Samples.{job_sample, reused_buffer_changes_sample}

abbrev pub fresh : Producer
fresh = record {
  bytes_written = 0;
  bytes_read = 0;
  resp_code = [];
  resp_body = [];
  buffers = λ _. [];
  log = [];
}

abbrev pub answer : ℕ → Text → Exchange
answer status body = record {
  prepare = none;
  failure = none;
  status = status;
  encoding = [];
  body = body;
  buffer = 7;
  capacity = 2048;
  elapsed = 3;
}

-- One answer is counted and sampled as the head of buffer 7.
abbrev sampled : Producer
sampled = record fresh {
  resp_code = (200, 1) ∷ (404, 1) ∷ [];
  resp_body = (200, alias 7 2) ∷ (404, alias 8 4) ∷ [];
}

job_sample_example :
    (lookup 200 (job (answer 200 (codes "ok")) fresh).0.resp_body
      ≡ some (sample_of (answer 200 (codes "ok")) []).0)
    × (shown
          (job (answer 200 (codes "ok")) fresh).0.buffers
          (sample_of (answer 200 (codes "ok")) []).0
        ≡ peek_body (codes "ok") 1000)
unfolding count_of lookup
job_sample_example = job_sample (answer 200 (codes "ok")) fresh refl refl refl

reused_buffer_changes_sample_example :
    (lookup 200 (job (answer 404 (codes "no")) sampled).0.resp_body ≡ some (alias 7 2))
    × (shown (job (answer 404 (codes "no")) sampled).0.buffers (alias 7 2) ≡ codes "no")
unfolding count_of lookup
reused_buffer_changes_sample_example =
    reused_buffer_changes_sample (answer 404 (codes "no")) sampled 200 2 refl refl refl
      (omega arith) (omega arith)

counted_lines :
    count_lines ((200, 12) ∷ (404, 1) ∷ []) ≡ codes "[200] 12" ++ 10 ∷ codes "[404] 1" ++ 10 ∷ []
unfolding count_lines decimal
counted_lines = refl

abbrev pub refused : Exchange
refused = record (answer 200 []) { failure = some 4 }

told_twice :
    count_at
      (codes "200")
      (request_counts (send_all (answer 200 [] ∷ answer 200 [] ∷ []) (init_producer [])))
    ≡ 2
unfolding send_all job count_of lookup insert without request_counts decimal count_at init_producer
    sample_of peek_slice
told_twice = refl
