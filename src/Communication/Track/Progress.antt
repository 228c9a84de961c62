-- ===== src/Communication/Track/Progress.antt =====
-- The threads of a Track of Track.cpp can always go on until the reader is empty.
use ddsproxy.Common.{
  ℕ, zero, suc, ◌+◌, ◌≡◌, refl, ◌∙◌, Bool, true, false, ◌||◌, nat_beq, if◌then◌else◌, arith, ◌⊎◌,
  inl, inr, Bool-cases,
}
use ddsproxy.Communication.Track.{no_more_data, transmitting_data, new_data_arrived}
use ddsproxy.Communication.Track.Transmit.{
  Transmission, Phase, free, testing, taking, closing, forwarding, resting, should_transmit, hears,
  adds, emits, starts, stores, takes, finds_nothing, closes, goes_on, forwards, Step, of_listener,
  of_pool, Reach, start, later, new_transmission, fetch_add, fetch_sub,
}
use ddsproxy.Communication.Track.Order.{Ordered, Step-Ordered, Reach-Ordered, in_hand}
use ddsproxy.Communication.Track.Wake.{Awake, Reach-Awake, Step-Awake}

Reach-trans : {s t u : Transmission} → Reach s t → Reach t u → Reach s u
Reach-trans r start = r
Reach-trans r (later q m) = later (Reach-trans r q) m

zero_or_suc : (n : ℕ) → (n ≡ 0) ⊎ ((m : ℕ) × (n ≡ m + 1))
zero_or_suc zero = inl refl
zero_or_suc (suc m) = inr (m, omega arith)

-- The track is enabled, nobody switches it, the global flag lets it transmit, and the topic is
-- reliable or a sample came since the reader was enabled.
abbrev pub Ready : Transmission → Type 0
Ready s =
    (s.enabled ≡ true)
    × (s.control ≡ resting)
    × (s.exit_flag ≡ false)
    × (s.reader_enabled ≡ true)
    × (s.master_flag ≡ true)
    × ((s.reliable || s.heard) ≡ true)

-- Steps of the listener and of the pool that forward all that is in the reader.
abbrev pub Emptied : Transmission → Type 0
Emptied s =
    (t : Transmission) × Reach s t
    × (t.waiting ≡ 0)
    × (t.sent ≡ s.sent + (s.waiting + in_hand s.phase))
    × (t.lost ≡ s.lost)

-- A step towards that.
earlier :
    (s t : Transmission)
    → Step s t
    → (t.waiting ≡ s.waiting)
    → (t.sent + in_hand t.phase ≡ s.sent + in_hand s.phase)
    → (t.lost ≡ s.lost)
    → Emptied t
    → Emptied s
earlier s t m w n l (u, r, empty, sent, lost) =
    (u, Reach-trans (later start m) r, empty, omega (arith, w, n, sent), omega (arith, l, lost))

from_testing : (w : ℕ) (s : Transmission) → s.waiting ≡ w → s.phase ≡ testing → Ready s → Emptied s
unfolding should_transmit
from_testing zero s e f r =
    let (on, rests, alive, reader, master, noted) = r in
    let s1 = record s { phase = taking; data_available_status = transmitting_data; since = 0 } in
    let s2 = record s1 { phase = closing } in
    (
      s2,
      later (later start (of_pool (stores f (ground arith) master)))
          (of_pool (finds_nothing refl reader e)),
      e,
      ground (arith, f),
      refl,
    )
from_testing (suc w) s e f r =
    let (on, rests, alive, reader, master, noted) = r in
    let s1 = record s { phase = taking; data_available_status = transmitting_data; since = 0 } in
    let s2 = record s1 { waiting = w; phase = forwarding } in
    let s3 = record s2 { sent = s.sent + 1; phase = testing } in
    let (t, q, empty, sent, lost) = from_testing w s3 refl refl r in
    (
      t,
      Reach-trans
          (later
            (later (later start (of_pool (stores f (ground arith) master)))
              (of_pool (takes refl reader (e ∙ omega arith))))
            (of_pool (forwards refl)))
          q,
      empty,
      ground (arith, f),
      lost,
    )

with_task : (s : Transmission) (n : ℕ) → s.tasks ≡ n + 1 → s.phase ≡ free → Ready s → Emptied s
with_task s n e f r =
    let s1 = record s { tasks = n; phase = testing } in
    earlier s s1 (of_pool (starts e f)) refl (ground (arith, f)) refl
      (from_testing s.waiting s1 refl refl r)

with_emitter :
    (s : Transmission) (n : ℕ) → s.emitters ≡ n + 1 → s.phase ≡ free → Ready s → Emptied s
with_emitter s n e f r =
    let s1 = record s { emitters = n; tasks = s.tasks + 1 } in
    earlier s s1 (of_listener (emits e)) refl refl refl (with_task s1 s.tasks refl f r)

with_callback :
    (s : Transmission) (n : ℕ)
    → s.callbacks ≡ n + 1
    → s.data_available_status ≡ no_more_data
    → s.phase ≡ free
    → Ready s
    → Emptied s
with_callback s n e z f r =
    let s1 = record s {
      callbacks = n;
      data_available_status = fetch_add new_data_arrived s.data_available_status;
      since = s.since + 1;
      emitters =
          if nat_beq s.data_available_status no_more_data then s.emitters + 1 else s.emitters;
    } in
    earlier s s1 (of_listener (adds e (ground (arith, f)))) refl refl refl
      (with_emitter s1 s.emitters (ground (arith, z)) f r)

with_listener :
    (s : Transmission) (n : ℕ)
    → s.listeners ≡ n + 1
    → s.data_available_status ≡ no_more_data
    → s.phase ≡ free
    → Ready s
    → Emptied s
with_listener s n e z f r =
    let s1 = record s { listeners = n; callbacks = s.callbacks + 1 } in
    earlier s s1 (of_listener (hears e r.0)) refl refl refl
      (with_callback s1 s.callbacks refl z f r)

-- No thread transmits: the one on its way does.
from_free : (s : Transmission) → s.phase ≡ free → Ordered s → Awake s → Ready s → Emptied s
from_free s f i a r = elim (zero_or_suc s.waiting) [
  | inl empty ↦ (s, start, empty, ground (arith, f, empty), refl)
  | inr (w, some_left) ↦ elim (zero_or_suc s.tasks) [
    | inr (n, e) ↦ with_task s n e f r
    | inl no_task ↦ elim (zero_or_suc s.emitters) [
      | inr (n, e) ↦ with_emitter s n e f r
      | inl no_emitter ↦
          let idle : s.data_available_status ≡ no_more_data = ground arith in
          elim (zero_or_suc s.callbacks) [
            | inr (n, e) ↦ with_callback s n e idle f r
            | inl no_callback ↦ elim (zero_or_suc s.listeners) [
              | inr (n, e) ↦ with_listener s n e idle f r
              | inl no_listener ↦ absurd (ground arith)
            ]
          ]
    ]
  ]
]

from_taking : (s : Transmission) → s.phase ≡ taking → Ready s → Emptied s
from_taking s f r = elim (zero_or_suc s.waiting) [
  | inl empty ↦
      let s1 = record s { phase = closing } in
      (s1, later start (of_pool (finds_nothing f r.3 empty)), empty, ground (arith, f, empty), refl)
  | inr (n, e) ↦
      let s1 = record s { waiting = n; phase = forwarding } in
      let s2 = record s1 { sent = s.sent + 1; phase = testing } in
      let (t, q, empty, sent, lost) = from_testing n s2 refl refl r in
      (
        t,
        Reach-trans (later (later start (of_pool (takes f r.3 e))) (of_pool (forwards refl))) q,
        empty,
        ground (arith, f),
        lost,
      )
]

from_closing : (s : Transmission) → s.phase ≡ closing → Ordered s → Awake s → Ready s → Emptied s
from_closing s f i a r =
    let status = fetch_sub transmitting_data s.data_available_status in
    elim (Bool-cases (nat_beq s.data_available_status transmitting_data)) [
      | inl last ↦
          let s1 = record s { data_available_status = status; phase = free } in
          let m : Step s s1 = of_pool (closes f (ground arith)) in
          earlier s s1 m refl (ground (arith, f)) refl
            (from_free s1 refl (Step-Ordered s s1 m i) (Step-Awake s s1 m i a) r)
      | inr more ↦
          let s1 = record s { data_available_status = status; phase = testing } in
          earlier s s1 (of_pool (goes_on f (λ e. ground arith))) refl (ground (arith, f)) refl
            (from_testing s.waiting s1 refl refl r)
    ]

from_phase :
    (p : Phase) (s : Transmission) → s.phase ≡ p → Ordered s → Awake s → Ready s → Emptied s
from_phase free s f i a r = from_free s f i a r
from_phase testing s f i a r = from_testing s.waiting s refl f r
from_phase taking s f i a r = from_taking s f r
from_phase closing s f i a r = from_closing s f i a r
from_phase forwarding s f i a r =
    let s1 = record s { sent = s.sent + 1; phase = testing } in
    earlier s s1 (of_pool (forwards f)) refl (ground (arith, f)) refl
      (from_testing s.waiting s1 refl refl r)

-- No deadlock: from every state that the threads can come to, with the track enabled, no call of
-- `enable` or `disable` under way, the global `master_flag` set, and a topic that is reliable or a
-- sample that came since the reader was enabled, some steps lead to a state with an empty reader, where every sample that was in it or in hand has been forwarded and none lost.
pub all_forwarded :
    (reliable flag : Bool) {s : Transmission}
    → Reach (new_transmission reliable flag) s
    → Ready s
    → Emptied s
all_forwarded reliable flag {s} q r =
    from_phase s.phase s refl (Reach-Ordered reliable flag q) (Reach-Awake reliable flag q) r
