-- ===== src/Readers/Tests.antt =====
-- Readers with a rate, and with downsampling.
use ddsproxy.Common.{ℕ, ◌≡◌, refl, ◌++◌, true, false, List, [], ◌∷◌, arith}
use ddsproxy.Readers.{BaseReader, new_base_reader, should_accept_sample, accepted, fast_module}
use ddsproxy.Readers.Sampling.{Spaced, accepted-new_base_reader-Spaced, accepted-append}

fast_module_38 : fast_module 38 8 ≡ 6
unfolding fast_module
fast_module_38 = refl

abbrev times : List ℕ
times = 10 ∷ 12 ∷ 25 ∷ 21 ∷ 36 ∷ []

three_pass : accepted times (new_base_reader true 10 1) ≡ 10 ∷ 25 ∷ 36 ∷ []
unfolding accepted new_base_reader should_accept_sample fast_module
three_pass = refl

accepted-new_base_reader-Spaced_example : Spaced 10 0 (accepted times (new_base_reader true 10 1))
accepted-new_base_reader-Spaced_example = accepted-new_base_reader-Spaced 10 1 times

abbrev every_third : BaseReader
every_third = record {
  has_max_rx_rate = false;
  min_intersample_period = 0;
  downsampling = 3;
  downsampling_idx = 0;
  last_received_ts = 5;
}

accepted-append_example :
    accepted ((10 ∷ 12 ∷ 25 ∷ []) ++ (21 ∷ 36 ∷ [])) every_third
    ≡ 10
      ∷ accepted (21 ∷ 36 ∷ []) (record every_third { downsampling_idx = 0; last_received_ts = 10 })
accepted-append_example =
    accepted-append 10 (12 ∷ 25 ∷ []) (21 ∷ 36 ∷ []) every_third refl refl refl (omega arith)
      (omega arith)
