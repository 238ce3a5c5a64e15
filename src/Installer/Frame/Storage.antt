-- ===== src/Installer/Frame/Storage.antt =====
-- Which paths the file operations of the installer leave alone, and what an atomic write or a removal
-- that succeeds leaves at its own path.
use quantum_runtime.Prelude.{ℕ, String, ◌≢◌, refl, List, Option, none, some}
use quantum_runtime.Installer.System.{File, Event, stat, read, create_temp, Machine, Action}
use quantum_runtime.Installer.Storage.{
  Layout, Snapshot, move, or_close, with_temp, remove_temp, fill_temp, write_atomic, read_found,
  read_file, copy_atomic, remove_if_exists, read_existing, read_optional, capture_snapshot,
  restore_file, restore_snapshot, file_exists,
}
use quantum_runtime.Installer.Frame.{
  Frame, IsUntouched, Frame->>=, Frame->>, Frame-attempt, Frame-set_file, Frame-deferring, frames,
  put_other, put_here,
}

-- The path is not one that `os.CreateTemp` chooses, and no command changes its file.
pub record IsStable (mc : Machine) (p : String) : Type 0 where
  pub unnamed : (events : List Event) (directory : String) → p ≢ mc.temp_name events directory
  pub untouched : IsUntouched mc p

pub Frame-move : {p source target : String} → p ≢ source → p ≢ target → Frame p (move source target)
unfolding move
Frame-move h h' = search (frames, h, h')

Frame-read_found : {p : String} (path : String) (f : Option File) → Frame p (read_found path f)
unfolding read_found
Frame-read_found path none = search frames
Frame-read_found path (some f) = search frames

pub ruleset storage = (frames, Frame-move)

module _ {p : String} (mc : Machine) where
  pub Frame-or_close : (temp : String) (event : Event) → Frame p (or_close mc temp event)
  unfolding or_close
  Frame-or_close temp event = search frames

  pub Frame-fill_temp :
      {temp path : String} (content : String) (mode : ℕ)
      → p ≢ temp
      → p ≢ path
      → Frame p (fill_temp mc temp path content mode)
  unfolding fill_temp
  Frame-fill_temp content mode h h' = search (storage, Frame-or_close, h, h') depth 20

  pub Frame-remove_temp : {temp : String} → p ≢ temp → Frame p (remove_temp mc temp)
  unfolding remove_temp
  Frame-remove_temp h = search (storage, h)

  pub Frame-with_temp :
      (directory : String) {k : String → Action (Unit {0})}
      → IsStable mc p
      → ((temp : String) → p ≢ temp → Frame p (k temp))
      → Frame p (with_temp mc directory k)
  unfolding with_temp
  Frame-with_temp directory {k} stable h = record {
    same = λ w.
        let name = mc.temp_name w.events directory in
        let other = stable.unnamed w.events directory in
        (Frame->> (Frame-attempt mc (create_temp directory))
            (Frame->> (Frame-set_file _ other) (h name other))).same
          w;
  }

  pub Frame-write_atomic :
      {path : String} (content : String) (mode : ℕ)
      → IsStable mc p
      → p ≢ path
      → Frame p (write_atomic mc path content mode)
  unfolding write_atomic
  Frame-write_atomic {path} content mode stable h = Frame->> (Frame-attempt mc _) (
      Frame-with_temp _ stable (λ temp other.
        Frame-deferring (Frame-remove_temp other) (Frame-fill_temp content mode other h)))

  pub Frame-read_file : (path : String) → Frame p (read_file mc path)
  unfolding read_file
  Frame-read_file path = record {
    same =
        λ w. (Frame->> (Frame-attempt mc (read path)) (Frame-read_found path (w.disk path))).same w;
  }

  pub Frame-copy_atomic :
      (source : String) {path : String} (mode : ℕ)
      → IsStable mc p
      → p ≢ path
      → Frame p (copy_atomic mc source path mode)
  unfolding copy_atomic
  Frame-copy_atomic source mode stable h =
      Frame->>= (Frame-read_file source) (λ f. Frame-write_atomic f.content mode stable h)

  pub Frame-remove_if_exists : {path : String} → p ≢ path → Frame p (remove_if_exists mc path)
  unfolding remove_if_exists
  Frame-remove_if_exists h = search (storage, h)

  Frame-read_existing : (path : String) (f : Option File) → Frame p (read_existing mc path f)
  unfolding read_existing
  Frame-read_existing path none = search storage
  Frame-read_existing path (some f) = search storage

  pub Frame-read_optional : (path : String) → Frame p (read_optional mc path)
  unfolding read_optional
  Frame-read_optional path = record {
    same = λ w.
        (Frame->> (Frame-attempt mc (stat path)) (Frame-read_existing path (w.disk path))).same w;
  }

  pub Frame-capture_snapshot : (l : Layout) → Frame p (capture_snapshot mc l)
  unfolding capture_snapshot
  Frame-capture_snapshot l = search (storage, Frame-read_optional) depth 20

  pub Frame-restore_file :
      {path : String} (f : Option File)
      → IsStable mc p
      → p ≢ path
      → Frame p (restore_file mc path f)
  unfolding restore_file
  Frame-restore_file none stable h = Frame-remove_if_exists h
  Frame-restore_file (some f) stable h = Frame-write_atomic f.content f.mode stable h

  pub Frame-restore_snapshot :
      (l : Layout) (old : Snapshot)
      → IsStable mc p
      → p ≢ l.binary
      → p ≢ l.config
      → p ≢ l.unit
      → p ≢ l.marker
      → Frame p (restore_snapshot mc l old)
  unfolding restore_snapshot
  Frame-restore_snapshot l old stable b c u m =
      Frame->> (Frame-restore_file old.old_binary stable b) (
        Frame->> (Frame-restore_file old.old_config stable c) (
          Frame->> (Frame-restore_file old.old_unit stable u)
            (Frame-restore_file old.old_marker stable m)))

  pub Frame-file_exists : (path : String) → Frame p (file_exists mc path)
  unfolding file_exists
  Frame-file_exists path = record { same = λ w. refl }
