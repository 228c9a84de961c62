-- ===== src/Types/Search.antt =====
-- The searches of `std::string` that RpcTopic uses, on the characters of a text: `rfind` with its
-- `npos`, and `std::regex_replace` for a pattern that is an alternative of plain words.
use Prim.Native.Char.{code}
use Prim.Native.String.{String}
use ddsproxy.Common.{
  ℕ, suc, ◌+◌, ◌-◌, ◌%◌, ◌^◌, ◌<◌, ◌≤◌, ◌≡◌, ◌≢◌, refl, ap, Bool, true, false, ◌&&◌, Option,
  Option-cases, inl, inr, length-append, none, some, List, [], ◌∷◌, ◌++◌, arith, length, nat_beq,
  if◌then◌else◌,
}

abbrev pub codes : String → List ℕ
codes String.[] = []
codes (String.◌∷◌ c s) = code c ∷ codes s

abbrev pub npos : ℕ
npos = 2 ^ 64 - 1

abbrev pub size_mod : ℕ
size_mod = 2 ^ 64

-- `s.find(p) == 0`
unfoldable pub is_prefix : List ℕ → List ℕ → Bool
is_prefix [] s = true
is_prefix (c ∷ p) [] = false
is_prefix (c ∷ p) (d ∷ s) = nat_beq c d && is_prefix p s

-- Where the last occurrence of a word starts.
unfoldable pub last_occurrence : List ℕ → List ℕ → Option ℕ
unfolding is_prefix
last_occurrence p [] = if is_prefix p [] then some 0 else none
last_occurrence p (c ∷ s) = elim (last_occurrence p s) [
  | none ↦ if is_prefix p (c ∷ s) then some 0 else none
  | some i ↦ some (suc i)
]

unfoldable pub rfind : List ℕ → List ℕ → ℕ
unfolding last_occurrence
rfind p s = elim (last_occurrence p s) [ none ↦ npos | some i ↦ i ]

-- `s.rfind(p) + p.length() + extra == s.length()`, in `size_t`.
unfoldable pub ends_before : List ℕ → ℕ → List ℕ → Bool
unfolding rfind
ends_before p extra s = nat_beq ((rfind p s + length p + extra) % size_mod) (length s)

pub prefix-append : (p s : List ℕ) → is_prefix p s ≡ true → (t : List ℕ) × (s ≡ p ++ t)
unfolding is_prefix
prefix-append [] s h = (s, refl)
prefix-append (c ∷ p) [] h = cc
prefix-append (c ∷ p) (d ∷ s) h =
    let (t, e) = prefix-append p s (ground arith) in (t, ground (arith, e))

-- The word stands where it is found.
pub last_occurrence-append :
    (p s : List ℕ) (i : ℕ)
    → last_occurrence p s ≡ some i
    → (a b : List ℕ) × (s ≡ a ++ (p ++ b)) × (length a ≡ i)
unfolding last_occurrence
last_occurrence-append p [] i h =
    let (t, e) = prefix-append p [] (ground arith) in ([], t, e, ground arith)
last_occurrence-append p (c ∷ s) i h = elim (Option-cases (last_occurrence p s)) [
  | inl here ↦
      let whole : (if is_prefix p (c ∷ s) then some 0 else none) ≡ some i = rw here at h in
      let (t, e) = prefix-append p (c ∷ s) (ground arith) in ([], t, e, ground arith)
  | inr (j, later) ↦
      let (a, b, e, n) = last_occurrence-append p s j later in
      (c ∷ a, b, ap (◌∷◌ c) e, ground (arith, n))
]

pub last_occurrence_bound :
    (p s : List ℕ) (i : ℕ) → last_occurrence p s ≡ some i → i + length p ≤ length s
last_occurrence_bound p s i h =
    let (a, b, e, n) = last_occurrence-append p s i h in
    omega (arith, ap length e, length-append a (p ++ b), length-append p b)

-- Unless the lengths are such that the overflow of `npos` meets them, the test finds the word, and
-- exactly `extra` characters follow it.
pub ends_before-append :
    (p : List ℕ) (extra : ℕ) (s : List ℕ)
    → ends_before p extra s ≡ true
    → length s + extra < size_mod
    → 0 < length p + extra
    → length p + extra < size_mod
    → length s + 1 ≢ length p + extra
    → (a b : List ℕ) × (s ≡ a ++ (p ++ b)) × (length b ≡ extra)
unfolding ends_before
ends_before-append p extra s h short some_word few quirk =
    elim (Option-cases (last_occurrence p s)) [
      | inl absent ↦ absurd (ground (arith, absent))
      | inr (i, found) ↦
          let (a, b, e, n) = last_occurrence-append p s i found in
          (
            a,
            b,
            e,
            ground (
              arith,
              found,
              ap length e,
              length-append a (p ++ b),
              length-append p b,
              last_occurrence_bound p s i found,
            ),
          )
    ]
