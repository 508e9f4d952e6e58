-- ===== src/Nethttp/Summary.antt =====
-- nethttp/job.go: the summary that `String` gives, with its lines as data: a speed is shown by the bytes
-- and the nanoseconds that it is taken from, and a histogram's rendering is the library's.
use mathlib.Core.Option
use plt.Base.{
  ℕ, ◌/◌, ◌≡◌, refl, ap, ◌∙◌, Bool, true, false, ◌&&◌, Option, none, some, List, [], ◌∷◌, ◌++◌, map,
  ltb, if◌then◌else◌, is_empty, Text, decimal, Bool-cases, inl, inr,
}
use plt.Base.Dict.{lookup}
use plt.Loadgen.Runner.{Dynhist}
use plt.Nethttp.State.{Headers, Producer}
use plt.Nethttp.Mutex.{request_counts}

pub data Line (C : Type 0) : Type 0 where
  host_log : Text → Line C
  bytes_read bytes_written : (total average : ℕ) → (speed : ℕ × ℕ) → Line C
  upstream_percentile : ℕ → C → Line C
  upstream_distribution dns_distribution tls_distribution ttfb_distribution
        connection_distribution :
      C → Line C
  statuses_title samples_title : Line C
  status : ℕ → ℕ → Line C
  sample : (proto : Text) → (code : ℕ) → Headers → Text → Line C

-- A missing key of a Go map reads as the zero value.
abbrev or_nothing {ℓ} : {A : Type ℓ} → Option (List A) → List A
or_nothing none = []
or_nothing (some t) = t

module _ {C : Type 0} where
  unfoldable pub traffic_lines : Producer C → List (Line C)
  traffic_lines p =
      if ltb 0 p.bytes_read && ltb 0 p.bytes_written && ltb 0 p.total
      then bytes_read p.bytes_read (p.bytes_read / p.total) (p.bytes_read, p.read_time)
        ∷ bytes_written p.bytes_written (p.bytes_written / p.total) (p.bytes_written, p.write_time)
        ∷ []
      else []

  abbrev status_lines : Producer C → List (ℕ × Text) → List (Line C)
  status_lines p = map (λ e. status e.0 (p.resp_code e.0))

  abbrev sample_lines : Producer C → List (ℕ × Text) → List (Line C)
  sample_lines p = map (λ e.
      sample (or_nothing (lookup e.0 p.resp_proto)) e.0 (or_nothing (lookup e.0 p.resp_header)) e.1)

module _ (dh : Dynhist) where
  open dh use {Collector, count}

  unfoldable pub upstream_lines : Producer Collector → List (Line Collector)
  upstream_lines p =
      if ltb 0 (count p.upstream_hist)
      then upstream_percentile 99 p.upstream_hist_precise
        ∷ upstream_percentile 95 p.upstream_hist_precise
        ∷ upstream_percentile 90 p.upstream_hist_precise
        ∷ upstream_percentile 50 p.upstream_hist_precise
        ∷ upstream_distribution p.upstream_hist
        ∷ []
      else []

  abbrev if_counted : (Collector → Line Collector) → Collector → List (Line Collector)
  if_counted line c = if ltb 0 (count c) then line c ∷ [] else []

  -- `none` where the caller waits for the mutex.
  unfoldable pub summary : Producer Collector → Option (List (Line Collector))
  unfolding traffic_lines upstream_lines
  summary p =
      if p.locked
      then none
      else if is_empty p.resp_body
      then some []
      else some (
          host_log p.log
          ∷ (traffic_lines p
              ++ (upstream_lines p
                  ++ (if_counted dns_distribution p.dns_hist
                      ++ (if_counted tls_distribution p.tls_hist
                          ++ (if_counted ttfb_distribution p.ttfb_hist
                              ++ (if_counted connection_distribution p.conn_hist
                                  ++ (statuses_title
                                      ∷ (status_lines p p.resp_body
                                          ++ (samples_title ∷ sample_lines p p.resp_body))))))))))

  -- The statuses that a summary shows, with their counts.
  abbrev pub shown_statuses : List (Line Collector) → List (Text × ℕ)
  shown_statuses [] = []
  shown_statuses (status code n ∷ lines) = (decimal code, n) ∷ shown_statuses lines
  shown_statuses (_ ∷ lines) = shown_statuses lines

  shown_statuses_skip :
      (b : Bool) (lines rest : List (Line Collector))
      → shown_statuses (lines ++ rest) ≡ shown_statuses rest
      → shown_statuses ((if b then lines else []) ++ rest) ≡ shown_statuses rest
  shown_statuses_skip true lines rest h = h
  shown_statuses_skip false lines rest h = refl

  shown_statuses-sample_lines :
      (p : Producer Collector) (m : List (ℕ × Text)) → shown_statuses (sample_lines p m) ≡ []
  shown_statuses-sample_lines p [] = refl
  shown_statuses-sample_lines p (e ∷ m) = shown_statuses-sample_lines p m

  shown_statuses-status_lines :
      (p : Producer Collector) (m : List (ℕ × Text)) (rest : List (Line Collector))
      → shown_statuses rest ≡ []
      → shown_statuses (status_lines p m ++ rest) ≡ map (λ e. (decimal e.0, p.resp_code e.0)) m
  shown_statuses-status_lines p [] rest h = h
  shown_statuses-status_lines p (e ∷ m) rest h =
      ap (◌∷◌ (decimal e.0, p.resp_code e.0)) (shown_statuses-status_lines p m rest h)

  abbrev from_statuses : Producer Collector → List (Line Collector)
  from_statuses p =
      statuses_title ∷ (status_lines p p.resp_body ++ (samples_title ∷ sample_lines p p.resp_body))

  abbrev from_distributions : Producer Collector → List (Line Collector)
  from_distributions p =
      if_counted dns_distribution p.dns_hist
      ++ (if_counted tls_distribution p.tls_hist
          ++ (if_counted ttfb_distribution p.ttfb_hist
              ++ (if_counted connection_distribution p.conn_hist ++ from_statuses p)))

  shown_statuses-from_distributions :
      (p : Producer Collector)
      → shown_statuses (from_distributions p) ≡ shown_statuses (from_statuses p)
  shown_statuses-from_distributions p =
      shown_statuses_skip (ltb 0 (count p.dns_hist)) (dns_distribution p.dns_hist ∷ []) _ refl
      ∙ shown_statuses_skip (ltb 0 (count p.tls_hist)) (tls_distribution p.tls_hist ∷ []) _ refl
      ∙ shown_statuses_skip (ltb 0 (count p.ttfb_hist)) (ttfb_distribution p.ttfb_hist ∷ []) _ refl
      ∙ shown_statuses_skip (ltb 0 (count p.conn_hist)) (connection_distribution p.conn_hist ∷ []) _
          refl

  shown_statuses-full :
      (p : Producer Collector)
      → shown_statuses (traffic_lines p ++ (upstream_lines p ++ from_distributions p))
        ≡ map (λ e. (decimal e.0, p.resp_code e.0)) p.resp_body
  unfolding traffic_lines upstream_lines
  shown_statuses-full p =
      shown_statuses_skip (ltb 0 p.bytes_read && ltb 0 p.bytes_written && ltb 0 p.total) _ _ refl
      ∙ shown_statuses_skip (ltb 0 (count p.upstream_hist)) _ _ refl
      ∙ shown_statuses-from_distributions p
      ∙ shown_statuses-status_lines p p.resp_body (samples_title ∷ sample_lines p p.resp_body)
          (shown_statuses-sample_lines p p.resp_body)

  shown_unless_empty :
      (p : Producer Collector) (m : List (ℕ × Text)) (lines : List (Line Collector))
      → shown_statuses lines ≡ map (λ e. (decimal e.0, p.resp_code e.0)) m
      → Option.map shown_statuses (if is_empty m then some [] else some lines)
        ≡ some (map (λ e. (decimal e.0, p.resp_code e.0)) m)
  shown_unless_empty p [] lines h = refl
  shown_unless_empty p (e ∷ m) lines h = ap some h

  -- The summary shows the statuses and counts that `RequestCounts` gives, and both wait for a kept
  -- mutex.
  pub summary-request_counts :
      (p : Producer Collector) → Option.map shown_statuses (summary p) ≡ request_counts p
  unfolding summary request_counts
  summary-request_counts p = elim (Bool-cases p.locked) [
    | inl e ↦ rw e refl
    | inr e ↦ rw e (shown_unless_empty p p.resp_body _ (shown_statuses-full p))
  ]
