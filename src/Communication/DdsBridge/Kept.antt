-- ===== src/Communication/DdsBridge/Kept.antt =====
-- The calls of DdsBridge.cpp that create no endpoint, on which readers forward to which writers.
use Prim.Native.String.{String}
use ddsproxy.Common.{
  ◌≡◌, refl, Bool, true, false, not, ◌&&◌, Option, none, some, [], ◌∷◌, arith, if◌then◌else◌,
  string_key, nat_key, ◌==◌, Option-cases, inl, inr,
}
use ddsproxy.Common.Map.{Map, find, erase, has, OnceEach, has-erase, has-find}
use ddsproxy.Dynamic.ParticipantsDatabase.{get_participant}
use ddsproxy.Communication.Handles.{Handles}
use ddsproxy.Communication.Track.{Track, has_writers, change_master}
use ddsproxy.Communication.Track
use ddsproxy.Communication.DdsBridge.{
  DdsBridge, enable_tracks, disable_tracks, enable, disable, remove_from_tracks, remove_writer,
  change_masters, change_master_flag,
}
use ddsproxy.Communication.DdsBridge.Routes.{forwards}
use ddsproxy.Communication.DdsBridge.Refinement.{Follows, has_of_empty}

-- What a track without the writer is, if it stays.
abbrev left_of : String → Option Track → Option Track
left_of p none = none
left_of p (some t) =
    if has_writers (Track.remove_writer p t) then some (Track.remove_writer p t) else none

has-remove_from_tracks :
    (p : String) (ts : Map String Track) (h : Handles) (i : String)
    → has i ts ≡ false
    → has i (remove_from_tracks p ts h).0 ≡ false
unfolding has remove_from_tracks
has-remove_from_tracks p [] h i e = refl
has-remove_from_tracks p ((j, t) ∷ ts) h i e =
    let t' = Track.remove_writer p t in
    let h' = if has_writers t' then h else (Track.disable t' h).1 in
    ground (arith, has-remove_from_tracks p ts h' i)

remove_from_tracks-OnceEach :
    (p : String) (ts : Map String Track) (h : Handles)
    → OnceEach ts
    → OnceEach (remove_from_tracks p ts h).0
unfolding remove_from_tracks
remove_from_tracks-OnceEach p [] h d = tt
remove_from_tracks-OnceEach p ((j, t) ∷ ts) h d =
    let t' = Track.remove_writer p t in
    let h' = if has_writers t' then h else (Track.disable t' h).1 in
    ground (arith, remove_from_tracks-OnceEach p ts h', has-remove_from_tracks p ts h' j)

find-remove_from_tracks :
    (i p : String) (ts : Map String Track) (h : Handles)
    → OnceEach ts
    → find i (remove_from_tracks p ts h).0 ≡ left_of p (find i ts)
unfolding find has remove_from_tracks
find-remove_from_tracks i p [] h d = refl
find-remove_from_tracks i p ((j, t) ∷ ts) h d =
    let t' = Track.remove_writer p t in
    let h' = if has_writers t' then h else (Track.disable t' h).1 in
    ground (
      arith,
      find-remove_from_tracks i p ts h',
      string_key.beq_iff i j,
      has-remove_from_tracks p ts h' j,
      has-find i (remove_from_tracks p ts h').0,
    )

-- The writers of a track that stays, and of none.
abbrev pub writes : String → Option Track → Bool
writes w none = false
writes w (some t) = has w t.writers

writes-left_of :
    (p w : String) (o : Option Track) → writes w (left_of p o) ≡ (not (w == p) && writes w o)
unfolding has_writers Track.remove_writer
writes-left_of p w none = ground arith
writes-left_of p w (some t) =
    ground (arith, has-erase w p t.writers, has_of_empty (erase p t.writers) w)

forwards_lem : (b : DdsBridge) (i w : String) → forwards b i w ≡ writes w (find i b.tracks)
forwards_lem b i w = elim (Option-cases (find i b.tracks)) [
  | inl missing ↦ ground (arith, missing)
  | inr (t, there) ↦ ground (arith, there)
]

-- What a call that creates no endpoint leaves alone.
abbrev pub Kept : (String → Bool) → DdsBridge → DdsBridge → Type 0
Kept active b c = Follows active c × (c.participants ≡ b.participants) × (c.routes ≡ b.routes)

pub remove_writer-Kept :
    (active : String → Bool) (p : String) (b : DdsBridge)
    → Follows active b
    → Kept (λ w. not (w == p) && active w) b (remove_writer p b)
unfolding remove_writer get_participant
remove_writer-Kept active p b f = (
  record {
    once = remove_from_tracks-OnceEach p b.tracks b.handles f.once;
    routed = λ i w. ground (
      arith,
      forwards_lem (remove_writer p b) i w,
      find-remove_from_tracks i p b.tracks b.handles f.once,
      writes-left_of p w (find i b.tracks),
      forwards_lem b i w,
      f.routed i w,
    );
  },
  refl,
  refl,
)

-- A change of the tracks that leaves their readers and their writers.
pub record Alike (ts us : Map String Track) : Type 0 where
  pub had : (i : String) → has i us ≡ has i ts
  pub wrote : (i w : String) → writes w (find i us) ≡ writes w (find i ts)
  pub once : OnceEach ts → OnceEach us

cons-Alike :
    (i : String) (t u : Track) (ts us : Map String Track)
    → u.writers ≡ t.writers
    → Alike ts us
    → Alike ((i, t) ∷ ts) ((i, u) ∷ us)
unfolding has find
cons-Alike i t u ts us e a = record {
  had = λ j. ground (arith, a.had j);
  wrote = λ j w. ground (arith, a.wrote j w, e);
  once = λ d. ground (arith, a.had i, a.once);
}

nil-Alike : Alike [] []
nil-Alike = record { had = λ i. refl; wrote = λ i w. refl; once = λ d. d }

enable_tracks-Alike : (ts : Map String Track) (h : Handles) → Alike ts (enable_tracks ts h).0
unfolding enable_tracks Track.enable
enable_tracks-Alike [] h = nil-Alike
enable_tracks-Alike ((i, t) ∷ ts) h =
    cons-Alike i t (Track.enable t h).0 ts _ (ground arith)
      (enable_tracks-Alike ts (Track.enable t h).1)

disable_tracks-Alike : (ts : Map String Track) (h : Handles) → Alike ts (disable_tracks ts h).0
unfolding disable_tracks Track.disable
disable_tracks-Alike [] h = nil-Alike
disable_tracks-Alike ((i, t) ∷ ts) h =
    cons-Alike i t (Track.disable t h).0 ts _ (ground arith)
      (disable_tracks-Alike ts (Track.disable t h).1)

change_masters-Alike : (flag : Bool) (ts : Map String Track) → Alike ts (change_masters flag ts)
unfolding change_masters change_master
change_masters-Alike flag [] = nil-Alike
change_masters-Alike flag ((i, t) ∷ ts) =
    cons-Alike i t (change_master flag t) ts _ refl (change_masters-Alike flag ts)

Alike-Kept :
    (active : String → Bool) (b c : DdsBridge)
    → c.participants ≡ b.participants
    → c.routes ≡ b.routes
    → Alike b.tracks c.tracks
    → Follows active b
    → Kept active b c
unfolding get_participant
Alike-Kept active b c p r a f = (
  record {
    once = a.once f.once;
    routed = λ i w.
        ground (arith, forwards_lem c i w, a.wrote i w, forwards_lem b i w, f.routed i w, p, r);
  },
  p,
  r,
)

pub either_branch :
    {A : Type 0} (P : A → Type 0) (c : Bool) {x y : A} → P x → P y → P (if c then x else y)
either_branch P true p q = p
either_branch P false p q = q

pub enable-Kept :
    (active : String → Bool) (b : DdsBridge) → Follows active b → Kept active b (enable b)
unfolding enable
enable-Kept active b f =
    let (ts, h) = enable_tracks b.tracks b.handles in
    let b' = record b { tracks = ts; handles = h; enabled = true } in
    either_branch (Kept active b) b.enabled (f, refl, refl)
      (Alike-Kept active b b' refl refl (enable_tracks-Alike b.tracks b.handles) f)

pub disable-Kept :
    (active : String → Bool) (b : DdsBridge) → Follows active b → Kept active b (disable b)
unfolding disable
disable-Kept active b f =
    let (ts, h) = disable_tracks b.tracks b.handles in
    let b' = record b { tracks = ts; handles = h; enabled = false } in
    either_branch (Kept active b) b.enabled
      (Alike-Kept active b b' refl refl (disable_tracks-Alike b.tracks b.handles) f) (f, refl, refl)

pub change_master_flag-Kept :
    (active : String → Bool) (flag : Bool) (b : DdsBridge)
    → Follows active b
    → Kept active b (change_master_flag flag b)
unfolding change_master_flag
change_master_flag-Kept active flag b f =
    Alike-Kept active b (change_master_flag flag b) refl refl (change_masters-Alike flag b.tracks) f
