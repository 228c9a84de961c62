-- ===== src/Communication/DdsBridge/Tracks.antt =====
-- The tracks of a DdsBridge of DdsBridge.cpp have its state.
use Prim.Native.String.{String}
use ddsproxy.Common.{
  ℕ, ◌≡◌, refl, Bool, true, false, some, [], ◌∷◌, arith, if◌then◌else◌, string_key, Bool-cases, inl,
  inr, All,
}
use ddsproxy.Common.Map.{Map, find, insert, replace}
use ddsproxy.Communication.Handles.{Handles}
use ddsproxy.Communication.Track.{
  Track, new_track, add_writer, has_writer, has_writers, change_master,
}
use ddsproxy.Communication.Track
use ddsproxy.Communication.DdsBridge.{
  DdsBridge, add_writers, enable_tracks, disable_tracks, remove_from_tracks, change_masters,
}

-- A track is enabled or not and has the master flag, and stands under the id of its reader.
abbrev pub Fits : Bool → Bool → String × Track → Type 0
Fits on flag (id, t) = (t.enabled ≡ on) × (t.master_flag ≡ flag) × (t.reader_participant_id ≡ id)

abbrev pub Uniform : DdsBridge → Type 0
Uniform b = All (Fits b.enabled b.master_flag) b.tracks

pub insert-Fits :
    (on flag : Bool) (id : String) (t : Track) (ts : Map String Track)
    → Fits on flag (id, t)
    → All (Fits on flag) ts
    → All (Fits on flag) (insert id t ts)
unfolding insert
insert-Fits on flag id t [] f fs = (f, tt)
insert-Fits on flag id t ((j, u) ∷ ts) f fs =
    ground (arith, insert-Fits on flag id t ts, string_key.beq_iff id j)

pub replace-Fits :
    (on flag : Bool) (id : String) (t : Track) (ts : Map String Track)
    → Fits on flag (id, t)
    → All (Fits on flag) ts
    → All (Fits on flag) (replace id t ts)
unfolding replace
replace-Fits on flag id t [] f fs = tt
replace-Fits on flag id t ((j, u) ∷ ts) f fs =
    ground (arith, replace-Fits on flag id t ts, string_key.beq_iff id j)

pub find-Fits :
    (on flag : Bool) (id : String) (t : Track) (ts : Map String Track)
    → All (Fits on flag) ts
    → find id ts ≡ some t
    → Fits on flag (id, t)
unfolding find
find-Fits on flag id t [] fs e = cc
find-Fits on flag id t ((j, u) ∷ ts) fs e =
    ground (arith, find-Fits on flag id t ts, string_key.beq_iff id j)

pub add_writers-Fits :
    (on flag : Bool) (id : String) (ws : Map String ℕ) (t : Track) (h : Handles)
    → Fits on flag (id, t)
    → Fits on flag (id, (add_writers ws t h).0)
unfolding add_writers add_writer
add_writers-Fits on flag id [] t h f = f
add_writers-Fits on flag id ((w, k) ∷ ws) t h f = elim (Bool-cases (has_writer w t)) [
  | inl there ↦ rw (there, add_writers) (add_writers-Fits on flag id ws t h f)
  | inr new ↦
      rw (new, add_writers)
        (add_writers-Fits on flag id ws (add_writer w k t h).0 (add_writer w k t h).1 f)
]

pub remove_from_tracks-Fits :
    (on flag : Bool) (p : String) (ts : Map String Track) (h : Handles)
    → All (Fits on flag) ts
    → All (Fits on flag) (remove_from_tracks p ts h).0
unfolding remove_from_tracks Track.remove_writer
remove_from_tracks-Fits on flag p [] h fs = tt
remove_from_tracks-Fits on flag p ((j, t) ∷ ts) h fs =
    let t' = Track.remove_writer p t in
    let h' = if has_writers t' then h else (Track.disable t' h).1 in
    ground (arith, remove_from_tracks-Fits on flag p ts h')

pub enable_tracks-Fits :
    (on flag : Bool) (ts : Map String Track) (h : Handles)
    → All (Fits on flag) ts
    → All (Fits true flag) (enable_tracks ts h).0
unfolding enable_tracks Track.enable
enable_tracks-Fits on flag [] h fs = tt
enable_tracks-Fits on flag ((j, t) ∷ ts) h (f, fs) =
    (ground arith, enable_tracks-Fits on flag ts (Track.enable t h).1 fs)

pub disable_tracks-Fits :
    (on flag : Bool) (ts : Map String Track) (h : Handles)
    → All (Fits on flag) ts
    → All (Fits false flag) (disable_tracks ts h).0
unfolding disable_tracks Track.disable
disable_tracks-Fits on flag [] h fs = tt
disable_tracks-Fits on flag ((j, t) ∷ ts) h (f, fs) =
    (ground arith, disable_tracks-Fits on flag ts (Track.disable t h).1 fs)

pub change_masters-Fits :
    (on flag new : Bool) (ts : Map String Track)
    → All (Fits on flag) ts
    → All (Fits on new) (change_masters new ts)
unfolding change_masters change_master
change_masters-Fits on flag new [] fs = tt
change_masters-Fits on flag new ((j, t) ∷ ts) (f, fs) =
    ((f.0, refl, f.2), change_masters-Fits on flag new ts fs)
