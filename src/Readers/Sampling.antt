-- ===== src/Readers/Sampling.antt =====
-- How far apart are the samples that a BaseReader of BaseReader.cpp lets through, and how many.
use ddsproxy.Common.{
  ℕ, ◌+◌, ◌≤◌, ◌<◌, ◌≡◌, ◌≢◌, refl, ap, ◌∙◌, ◌++◌, Bool, true, false, not, ◌&&◌, List, [], ◌∷◌,
  if◌then◌else◌, nat_beq, ltb, arith, length, ◌^◌, ◌%◌, Bool-cases, inl, inr,
}
use mathlib.Core.Path.{subst}
use ddsproxy.Readers.{BaseReader, new_base_reader, should_accept_sample, accepted, fast_module}

-- Each time is at least a period after the one before it.
abbrev pub Spaced : ℕ → ℕ → List ℕ → Type 0
Spaced period last [] = Unit {0}
Spaced period last (t ∷ ts) = (last + period ≤ t) × Spaced period t ts

-- The state and the verdict after a sample, for a reader with a rate.
abbrev Paced : ℕ → BaseReader → Bool × BaseReader → Type 0
Paced now r (accepts, r') =
    (r'.has_max_rx_rate ≡ true)
    × (r'.min_intersample_period ≡ r.min_intersample_period)
    × (accepts ≡ false → r'.last_received_ts ≡ r.last_received_ts)
    × (accepts ≡ true → r'.last_received_ts ≡ now)
    × (accepts ≡ true → r.last_received_ts + r.min_intersample_period ≤ now)

branch-Paced :
    (early skips : Bool) (now idx : ℕ) (r : BaseReader)
    → r.has_max_rx_rate ≡ true
    → (early ≡ false → r.last_received_ts + r.min_intersample_period ≤ now)
    → Paced now r (
        if early
        then (false, r)
        else if skips
        then (false, record r { downsampling_idx = idx })
        else (true, record r { downsampling_idx = idx; last_received_ts = now }))
branch-Paced true skips now idx r h late =
    (h, refl, λ e. refl, λ e. absurd (cc e), λ e. absurd (cc e))
branch-Paced false true now idx r h late =
    (h, refl, λ e. refl, λ e. absurd (cc e), λ e. absurd (cc e))
branch-Paced false false now idx r h late = (h, refl, λ e. absurd (cc e), λ e. refl, λ e. late refl)

should_accept_sample-Paced :
    (now : ℕ) (r : BaseReader) → r.has_max_rx_rate ≡ true → Paced now r (should_accept_sample now r)
unfolding should_accept_sample
should_accept_sample-Paced now r h =
    branch-Paced (r.has_max_rx_rate && ltb now (r.last_received_ts + r.min_intersample_period))
      (not (nat_beq r.downsampling_idx 0)) now
      (fast_module ((r.downsampling_idx + 1) % 2 ^ 32) r.downsampling) r h
      (λ e. ground (arith, h, e))

accepted-Spaced :
    (times : List ℕ) (r : BaseReader)
    → r.has_max_rx_rate ≡ true
    → Spaced r.min_intersample_period r.last_received_ts (accepted times r)
unfolding accepted
accepted-Spaced [] r h = tt
accepted-Spaced (now ∷ times) r h =
    let (a, r') = should_accept_sample now r in
    let (on, period, kept, new, late) = should_accept_sample-Paced now r h in
    let rest = accepted-Spaced times r' on in
    elim (Bool-cases a) [
      | inr skips ↦ rw skips (
          subst (λ l. Spaced r.min_intersample_period l (accepted times r')) (kept skips)
            (subst (λ p. Spaced p r'.last_received_ts (accepted times r')) period rest))
      | inl comes ↦ rw comes (
        late comes,
        subst (λ l. Spaced r.min_intersample_period l (accepted times r')) (new comes)
            (subst (λ p. Spaced p r'.last_received_ts (accepted times r')) period rest),
      )
    ]

-- From the construction of a reader with a maximum rate on, every sample that comes through is at
-- least a period after the one that came through before it, whatever the clock does.
pub accepted-new_base_reader-Spaced :
    (period downsampling : ℕ) (times : List ℕ)
    → Spaced period 0 (accepted times (new_base_reader true period downsampling))
unfolding new_base_reader
accepted-new_base_reader-Spaced period downsampling times =
    accepted-Spaced times (new_base_reader true period downsampling) refl

fast_module_next :
    (i d : ℕ)
    → i < d
    → d < 2 ^ 32
    → fast_module ((i + 1) % 2 ^ 32) d ≡ (if ltb (i + 1) d then i + 1 else 0)
unfolding fast_module
fast_module_next i d below small =
    let fits : (i + 1) % 2 ^ 32 ≡ i + 1 = omega (arith, below, small) in
    elim (Bool-cases (ltb (i + 1) d)) [
      | inl less ↦ rw (fits, less) refl
      | inr last ↦
          let equal : nat_beq (i + 1) d ≡ true = ground (arith, below, last) in
          rw (fits, last, equal) refl
    ]

else_if_true :
    {A : Type 0} (c d : Bool) (x y z : A)
    → c ≡ false
    → d ≡ true
    → (if c then x else if d then y else z) ≡ y
else_if_true c d x y z e f = rw (e, f) refl

else_if_false :
    {A : Type 0} (c d : Bool) (x y z : A)
    → c ≡ false
    → d ≡ false
    → (if c then x else if d then y else z) ≡ z
else_if_false c d x y z e f = rw (e, f) refl

-- Without a rate, a sample passes when the index is 0.
passed :
    (now : ℕ) (r : BaseReader)
    → r.has_max_rx_rate ≡ false
    → r.downsampling_idx ≡ 0
    → should_accept_sample now r ≡ (
      true,
      record r {
        downsampling_idx = fast_module ((r.downsampling_idx + 1) % 2 ^ 32) r.downsampling;
        last_received_ts = now;
      },
    )
unfolding should_accept_sample
passed now r h z =
    else_if_false (r.has_max_rx_rate && ltb now (r.last_received_ts + r.min_intersample_period))
      (not (nat_beq r.downsampling_idx 0)) _ _ _ (ground (arith, h)) (ground (arith, z))

skipped :
    (now : ℕ) (r : BaseReader)
    → r.has_max_rx_rate ≡ false
    → r.downsampling_idx ≢ 0
    → should_accept_sample now r ≡ (
      false,
      record r {
        downsampling_idx = fast_module ((r.downsampling_idx + 1) % 2 ^ 32) r.downsampling;
      },
    )
unfolding should_accept_sample
skipped now r h z =
    else_if_true (r.has_max_rx_rate && ltb now (r.last_received_ts + r.min_intersample_period))
      (not (nat_beq r.downsampling_idx 0)) _ _ _ (ground (arith, h)) (ground arith)

-- The samples until the index is back at 0.
accepted_skips :
    (ts rest : List ℕ) (r : BaseReader)
    → r.has_max_rx_rate ≡ false
    → r.downsampling_idx ≢ 0
    → r.downsampling_idx + length ts ≡ r.downsampling
    → r.downsampling < 2 ^ 32
    → r.downsampling_idx < r.downsampling
    → accepted (ts ++ rest) r ≡ accepted rest (record r { downsampling_idx = 0 })
unfolding accepted
accepted_skips [] rest r h z e small below = absurd (ground arith)
accepted_skips (t ∷ []) rest r h z e small below =
    let next = fast_module_next r.downsampling_idx r.downsampling below small in
    let back : fast_module ((r.downsampling_idx + 1) % 2 ^ 32) r.downsampling ≡ 0 =
      next ∙ ground (arith, e) in
    rw (skipped t r h z) (ap (λ i. accepted rest (record r { downsampling_idx = i })) back)
accepted_skips (t ∷ u ∷ ts) rest r h z e small below =
    let next = fast_module_next r.downsampling_idx r.downsampling below small in
    let up : fast_module ((r.downsampling_idx + 1) % 2 ^ 32) r.downsampling
        ≡ r.downsampling_idx + 1 =
      next ∙ ground (arith, e) in
    let r' = record r { downsampling_idx = r.downsampling_idx + 1 } in
    rw (skipped t r h z) (
      ap (λ i. accepted ((u ∷ ts) ++ rest) (record r { downsampling_idx = i })) up
      ∙ accepted_skips (u ∷ ts) rest r' h (λ q. ground arith) (ground arith) small (ground arith))

-- Without a maximum rate, and with a downsampling of 2 or more (below 2 ^ 32), the first of every
-- `downsampling` samples comes through, and the others do not.
pub accepted-append :
    (t : ℕ) (ts rest : List ℕ) (r : BaseReader)
    → r.has_max_rx_rate ≡ false
    → r.downsampling_idx ≡ 0
    → length ts + 1 ≡ r.downsampling
    → 2 ≤ r.downsampling
    → r.downsampling < 2 ^ 32
    → accepted ((t ∷ ts) ++ rest) r
      ≡ t ∷ accepted rest (record r { downsampling_idx = 0; last_received_ts = t })
unfolding accepted
accepted-append t ts rest r h z e big small =
    let next = fast_module_next r.downsampling_idx r.downsampling (ground (arith, z)) small in
    let one : fast_module ((r.downsampling_idx + 1) % 2 ^ 32) r.downsampling ≡ 1 =
      next ∙ ground (arith, z) in
    let r' = record r { downsampling_idx = 1; last_received_ts = t } in
    rw (passed t r h z) (
      ap (λ i. t ∷ accepted (ts ++ rest) (record r { downsampling_idx = i; last_received_ts = t }))
        one
      ∙ ap (λ l. t ∷ l)
          (accepted_skips ts rest r' h (λ q. ground arith) (omega (arith, e)) small
            (omega (arith, big))))
