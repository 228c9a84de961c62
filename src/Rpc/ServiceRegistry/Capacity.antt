-- ===== src/Rpc/ServiceRegistry/Capacity.antt =====
-- What ServiceRegistry.cpp keeps of the requests, how many, and for how long.
use Prim.Native.String.{String}
use ddsproxy.Common.{
  ℕ, suc, ◌+◌, ◌<◌, ◌≡◌, ◌≢◌, none, some, List, [], ◌∷◌, arith, if◌then◌else◌, nat_beq, nat_key,
  nat_beq_iff, length, Bool-cases, inl, inr, ap, ◌∙◌, beq_refl, beq_ne,
}
use ddsproxy.Common.Map.{
  find, has, insert, find-erase, has-find, erase, find-insert_self, find-insert_ne, find-erase_self,
  find-erase_ne, has_of_none,
}
use ddsproxy.Rpc.ServiceRegistry.{
  ServiceRegistry, default_max_entries, init, enable, disable, add, erase_entry, get,
}
use ddsproxy.Common.Ordered.{
  erase_begin, IsSorted, oldest, insert-IsSorted, erase-IsSorted, erase_begin-IsSorted,
  find-erase_begin, length-insert_new, length-erase-le, length-erase_begin, oldest-insert_above,
}

pub data Call (SampleIdentity : Type 0) : Type 0 where
  adds : ℕ → String × SampleIdentity → Call SampleIdentity
  erases : ℕ → Call SampleIdentity
  enables disables : Call SampleIdentity

module _ {SampleIdentity : Type 0} where
  pub record IsValid (r : ServiceRegistry SampleIdentity) : Type 0 where
    pub ordered : IsSorted r.registry
    pub bounded : length r.registry < default_max_entries

  unfoldable pub step :
      ServiceRegistry SampleIdentity → Call SampleIdentity → ServiceRegistry SampleIdentity
  step r (adds idx entry) = add idx entry r
  step r (erases idx) = erase_entry idx r
  step r enables = enable r
  step r disables = disable r

  unfoldable pub run :
      ServiceRegistry SampleIdentity → List (Call SampleIdentity) → ServiceRegistry SampleIdentity
  run r [] = r
  run r (c ∷ cs) = run (step r c) cs

  pub init-IsValid : (id : String) → IsValid (init {SampleIdentity = SampleIdentity} id)
  unfolding init
  init-IsValid id = record { ordered = tt; bounded = omega arith }

  add-IsValid :
      (idx : ℕ) (e : String × SampleIdentity) (r : ServiceRegistry SampleIdentity)
      → IsValid r
      → IsValid (add idx e r)
  unfolding add
  add-IsValid idx e r v = elim (Bool-cases (has idx r.registry)) [
    | inl old ↦ rw (old, add) v
    | inr new ↦ elim (Bool-cases (nat_beq (length (insert idx e r.registry)) default_max_entries)) [
      | inl full ↦
          rw (new, full, add)
            (record {
              ordered = erase_begin-IsSorted _ (insert-IsSorted idx e r.registry v.ordered);
              bounded = ground (arith, length-erase_begin (insert idx e r.registry) {n = 4999});
            })
      | inr room ↦
          rw (new, room, add)
            (record {
              ordered = insert-IsSorted idx e r.registry v.ordered;
              bounded = ground (arith, length-insert_new idx e r.registry);
            })
    ]
  ]

  step-IsValid :
      (r : ServiceRegistry SampleIdentity) (c : Call SampleIdentity)
      → IsValid r
      → IsValid (step r c)
  unfolding step erase_entry enable disable
  step-IsValid r (adds idx entry) v = add-IsValid idx entry r v
  step-IsValid r (erases idx) v = elim (Bool-cases (has idx r.registry)) [
    | inl old ↦
        rw (old, erase_entry)
          (record {
            ordered = erase-IsSorted idx r.registry v.ordered;
            bounded = omega (arith, v.bounded, length-erase-le idx r.registry);
          })
    | inr new ↦ rw (new, erase_entry) v
  ]
  step-IsValid r enables v = record { ordered = v.ordered; bounded = v.bounded }
  step-IsValid r disables v = record { ordered = v.ordered; bounded = v.bounded }

  run-IsValid :
      (r : ServiceRegistry SampleIdentity) (cs : List (Call SampleIdentity))
      → IsValid r
      → IsValid (run r cs)
  unfolding run
  run-IsValid r [] v = v
  run-IsValid r (c ∷ cs) v = run-IsValid (step r c) cs (step-IsValid r c v)

  -- After any sequence of calls on a new registry its entries are ordered by sequence number, and
  -- there are fewer than `default_max_entries` of them.
  pub run-init-IsValid :
      (id : String) (cs : List (Call SampleIdentity)) → IsValid (run (init id) cs)
  run-init-IsValid id cs = run-IsValid (init id) cs (init-IsValid id)

  add_room :
      (idx : ℕ) (e : String × SampleIdentity) (r : ServiceRegistry SampleIdentity)
      → find idx r.registry ≡ none
      → length r.registry + 1 < default_max_entries
      → (add idx e r).registry ≡ insert idx e r.registry
  unfolding add
  add_room idx e r new room =
      elim (Bool-cases (nat_beq (length (insert idx e r.registry)) default_max_entries)) [
        | inl full ↦
            absurd
              (ground (arith, length-insert_new idx e r.registry, has_of_none idx r.registry new))
        | inr below ↦ rw (has_of_none idx r.registry new, below, add)
      ]

  add_full :
      (idx : ℕ) (e : String × SampleIdentity) (r : ServiceRegistry SampleIdentity)
      → find idx r.registry ≡ none
      → suc (length r.registry) ≡ default_max_entries
      → (add idx e r).registry ≡ erase_begin (insert idx e r.registry)
  unfolding add
  add_full idx e r new full =
      elim (Bool-cases (nat_beq (length (insert idx e r.registry)) default_max_entries)) [
        | inl is_full ↦ rw (has_of_none idx r.registry new, is_full, add)
        | inr below ↦
            absurd
              (ground (arith, length-insert_new idx e r.registry, has_of_none idx r.registry new))
      ]

  get-find :
      (unknown : SampleIdentity) (i : ℕ) (r q : ServiceRegistry SampleIdentity)
      → find i r.registry ≡ find i q.registry
      → get unknown i r ≡ get unknown i q
  unfolding get
  get-find unknown i r q h = rw (h, get)

  find-erase_entry :
      (i idx : ℕ) (r : ServiceRegistry SampleIdentity)
      → find i (erase_entry idx r).registry ≡ find i (erase idx r.registry)
  unfolding erase_entry
  find-erase_entry i idx r = elim (Bool-cases (has idx r.registry)) [
    | inl old ↦ rw (old, erase_entry)
    | inr new ↦
        rw (new, erase_entry)
          (rw (find-erase i idx r.registry)
            (ground (arith, nat_beq_iff i idx, has-find idx r.registry)))
  ]

  -- While there is room, a request with a new sequence number can be looked up afterwards, and
  -- once its reply is forwarded it is gone; the entries of all other requests are unchanged
  -- throughout.
  pub get-add-erase_entry :
      (unknown : SampleIdentity) (idx : ℕ) (e : String × SampleIdentity)
      (r : ServiceRegistry SampleIdentity)
      → find idx r.registry ≡ none
      → length r.registry + 1 < default_max_entries
      → (get unknown idx (add idx e r) ≡ e)
        × (get unknown idx (erase_entry idx (add idx e r)) ≡ ("", unknown))
        × ((i : ℕ) → i ≢ idx → get unknown i (add idx e r) ≡ get unknown i r)
        × ((i : ℕ) → i ≢ idx → get unknown i (erase_entry idx (add idx e r)) ≡ get unknown i r)
  unfolding get
  get-add-erase_entry unknown idx e r new room = (
    rw (ap (find idx) (add_room idx e r new room) ∙ find-insert_self idx e r.registry, get),
    rw (find-erase_entry idx idx (add idx e r) ∙ find-erase_self idx _, get),
    λ i other. get-find unknown i (add idx e r) r (added i other),
    λ i other.
        get-find unknown i (erase_entry idx (add idx e r)) r
          (find-erase_entry i idx (add idx e r) ∙ find-erase_ne i idx _ other ∙ added i other),
  )
    where
      added : (i : ℕ) → i ≢ idx → find i (add idx e r).registry ≡ find i r.registry
      added i other =
          ap (find i) (add_room idx e r new room) ∙ find-insert_ne i idx e r.registry other

  -- A registry that the new request would fill drops the request with the smallest sequence
  -- number, and that one only.
  pub find-add_full :
      (idx j : ℕ) (e : String × SampleIdentity) (r : ServiceRegistry SampleIdentity)
      → IsValid r
      → find idx r.registry ≡ none
      → suc (length r.registry) ≡ default_max_entries
      → oldest r.registry ≡ some j
      → j < idx
      → (find j (add idx e r).registry ≡ none)
        × (find idx (add idx e r).registry ≡ some e)
        × ((i : ℕ) → i ≢ idx → i ≢ j → find i (add idx e r).registry ≡ find i r.registry)
  find-add_full idx j e r v new full first below = (
    dropped j ∙ rw (beq_refl j),
    dropped idx ∙ rw (beq_ne idx j (omega arith)) (find-insert_self idx e r.registry),
    λ i other kept. dropped i ∙ rw (beq_ne i j kept) (find-insert_ne i idx e r.registry other),
  )
    where
      dropped :
          (i : ℕ)
          → find i (add idx e r).registry
            ≡ (if nat_beq i j then none else find i (insert idx e r.registry))
      dropped i =
          ap (find i) (add_full idx e r new full)
          ∙ find-erase_begin i j (insert idx e r.registry)
              (insert-IsSorted idx e r.registry v.ordered)
              (oldest-insert_above j idx e r.registry first below)
