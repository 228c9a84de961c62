-- ===== src/Payload/Holders.antt =====
-- The payloads that the users of a pool hold, and how often a block is among them.
use ddsproxy.Common.{
  ℕ, zero, suc, ◌<◌, ◌≤◌, ◌≡◌, ◌≢◌, refl, Bool, false, none, some, List, [], ◌∷◌, arith, nat_beq,
  nat_beq_iff, inl, inr, nat_key, if◌then◌else◌, length, get_elem?, remove_at, Option-cases,
}
use ddsproxy.Payload.Memory.{Payload}

abbrev pub shows : ℕ → Payload → Bool
shows p h = elim h.data_ [ none ↦ false | some q ↦ nat_beq q p ]

-- How many of the held payloads show block `p`.
abbrev pub holders : ℕ → List Payload → ℕ
holders p [] = 0
holders p (h ∷ hs) = if shows p h then suc (holders p hs) else holders p hs

pub holders-le-length : (p : ℕ) (hs : List Payload) → holders p hs ≤ length hs
holders-le-length p [] = omega arith
holders-le-length p (h ∷ hs) = ground (arith, holders-le-length p hs)

-- Giving one payload back takes one holder from its block, and none from the others.
pub holders-remove_at :
    (p : ℕ) (hs : List Payload) (i : ℕ) (h : Payload)
    → get_elem? hs i ≡ some h
    → holders p hs
      ≡ (if shows p h then suc (holders p (remove_at hs i)) else holders p (remove_at hs i))
holders-remove_at p [] i h e = cc
holders-remove_at p (x ∷ hs) zero h e = ground arith
holders-remove_at p (x ∷ hs) (suc i) h e = ground (arith, holders-remove_at p hs i h e)

pub length-remove_at {ℓ} :
    {A : Type ℓ} (hs : List A) (i : ℕ) (h : A)
    → get_elem? hs i ≡ some h
    → suc (length (remove_at hs i)) ≡ length hs
length-remove_at [] i h e = cc
length-remove_at (x ∷ hs) zero h e = refl
length-remove_at (x ∷ hs) (suc i) h e = omega (arith, length-remove_at hs i h e)

-- Every held payload has data.
abbrev pub HaveData : List Payload → Type 0
HaveData [] = Unit {0}
HaveData (h ∷ hs) = (h.data_ ≢ none) × HaveData hs

pub HaveData-get :
    (hs : List Payload) (i : ℕ) (h : Payload)
    → HaveData hs
    → get_elem? hs i ≡ some h
    → (p : ℕ) × (h.data_ ≡ some p)
HaveData-get [] i h d e = cc
HaveData-get (x ∷ hs) zero h d e = ground (arith, Option-cases x.data_)
HaveData-get (x ∷ hs) (suc i) h d e = HaveData-get hs i h d.1 e

pub HaveData-remove_at : (hs : List Payload) (i : ℕ) → HaveData hs → HaveData (remove_at hs i)
HaveData-remove_at [] i d = tt
HaveData-remove_at (x ∷ hs) zero d = d.1
HaveData-remove_at (x ∷ hs) (suc i) d = (d.0, HaveData-remove_at hs i d.1)

-- The payload shows another block than each of the others.
abbrev pub AllApart : Payload → List Payload → Type 0
AllApart p [] = Unit {0}
AllApart p (q ∷ qs) = (p.data_ ≢ q.data_) × AllApart p qs

-- No payload of the list shows a block that another payload shows.
pub holders-zero :
    (p : ℕ) (h : Payload) (hs : List Payload) → h.data_ ≡ some p → AllApart h hs → holders p hs ≡ 0
holders-zero p h [] here a = refl
holders-zero p h (x ∷ hs) here a = elim (Option-cases x.data_) [
  | inl e ↦ ground (arith, holders-zero p h hs here a.1)
  | inr (q, e) ↦ ground (arith, holders-zero p h hs here a.1, nat_beq_iff q p, a.0)
]

pub holders_pos :
    (p : ℕ) (hs : List Payload) (i : ℕ) (h : Payload)
    → get_elem? hs i ≡ some h
    → h.data_ ≡ some p
    → 0 < holders p hs
holders_pos p hs i h e here = ground (arith, holders-remove_at p hs i h e)
