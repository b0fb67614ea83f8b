-- ===== src/EventLoop.antt =====
-- The event loop that wrk.c drives, as it documents itself: which handler a descriptor's events
-- call, and the timers that are set. The loop is another library's, so it is a parameter.
use wrkx.Prelude.{ℕ, ◌≡◌, ◌≢◌, Bool, true, false, Option, none, some, List, ◌∷◌}

-- the file handlers of wrk.c, and its timer handlers
pub data FileProc : Type 0 where
  socket_connected socket_writeable socket_readable : FileProc

pub data TimeProc : Type 0 where
  delayed_initial_connect delay_request calibrate check_timeouts sample_rate : TimeProc

-- AE_READABLE, AE_WRITABLE, and both
pub data Mask : Type 0 where
  readable writable both : Mask

abbrev pub reads : Mask → Bool
reads readable = true
reads writable = false
reads both = true

abbrev pub writes : Mask → Bool
writes readable = false
writes writable = true
writes both = true

abbrev pub set_proc : Bool → FileProc → Option FileProc → Option FileProc
set_proc true p old = some p
set_proc false p old = old

abbrev pub unset_proc : Bool → Option FileProc → Option FileProc
unset_proc true old = none
unset_proc false old = old

pub record EventLoop : Type 1 where
  pub L : Type 0
  -- `aeCreateFileEvent`, with true for AE_OK; `aeDeleteFileEvent`, `aeCreateTimeEvent`, `aeStop`
  pub create_file_event : L → ℕ → Mask → FileProc → Bool × L
  pub delete_file_event : L → ℕ → Mask → L
  pub create_time_event : L → ℕ → TimeProc → L
  pub stop : L → L
  -- what the loop calls for a descriptor, the timers set (milliseconds), whether it was stopped
  pub on_readable : L → ℕ → Option FileProc
  pub on_writable : L → ℕ → Option FileProc
  pub timers : L → List (ℕ × TimeProc)
  pub stopped : L → Bool

pub record LoopLaws (e : EventLoop) : Type 1 where
  -- whether a descriptor is small enough for the loop
  pub fits : ℕ → Bool
  pub create_ok :
      (l : e.L) (fd : ℕ) (m : Mask) (p : FileProc)
      → fits fd ≡ true
      → (e.create_file_event l fd m p).0 ≡ true
  pub create_readable :
      (l : e.L) (fd : ℕ) (m : Mask) (p : FileProc)
      → fits fd ≡ true
      → e.on_readable (e.create_file_event l fd m p).1 fd
        ≡ set_proc (reads m) p (e.on_readable l fd)
  pub create_writable :
      (l : e.L) (fd : ℕ) (m : Mask) (p : FileProc)
      → fits fd ≡ true
      → e.on_writable (e.create_file_event l fd m p).1 fd
        ≡ set_proc (writes m) p (e.on_writable l fd)
  pub delete_readable :
      (l : e.L) (fd : ℕ) (m : Mask)
      → e.on_readable (e.delete_file_event l fd m) fd ≡ unset_proc (reads m) (e.on_readable l fd)
  pub delete_writable :
      (l : e.L) (fd : ℕ) (m : Mask)
      → e.on_writable (e.delete_file_event l fd m) fd ≡ unset_proc (writes m) (e.on_writable l fd)
  pub time_readable :
      (l : e.L) (ms : ℕ) (p : TimeProc) (fd : ℕ)
      → e.on_readable (e.create_time_event l ms p) fd ≡ e.on_readable l fd
  pub time_timers :
      (l : e.L) (ms : ℕ) (p : TimeProc)
      → e.timers (e.create_time_event l ms p) ≡ (ms, p) ∷ e.timers l
  pub create_timers :
      (l : e.L) (fd : ℕ) (m : Mask) (p : FileProc)
      → e.timers (e.create_file_event l fd m p).1 ≡ e.timers l
  pub delete_timers :
      (l : e.L) (fd : ℕ) (m : Mask) → e.timers (e.delete_file_event l fd m) ≡ e.timers l
  pub time_writable :
      (l : e.L) (ms : ℕ) (p : TimeProc) (fd : ℕ)
      → e.on_writable (e.create_time_event l ms p) fd ≡ e.on_writable l fd
  -- Other descriptors are left alone.
  pub create_readable_other :
      (l : e.L) (fd : ℕ) (m : Mask) (p : FileProc) (other : ℕ)
      → fd ≢ other
      → e.on_readable (e.create_file_event l fd m p).1 other ≡ e.on_readable l other
  pub create_writable_other :
      (l : e.L) (fd : ℕ) (m : Mask) (p : FileProc) (other : ℕ)
      → fd ≢ other
      → e.on_writable (e.create_file_event l fd m p).1 other ≡ e.on_writable l other
  pub delete_readable_other :
      (l : e.L) (fd : ℕ) (m : Mask) (other : ℕ)
      → fd ≢ other
      → e.on_readable (e.delete_file_event l fd m) other ≡ e.on_readable l other
  pub delete_writable_other :
      (l : e.L) (fd : ℕ) (m : Mask) (other : ℕ)
      → fd ≢ other
      → e.on_writable (e.delete_file_event l fd m) other ≡ e.on_writable l other
  pub stop_readable : (l : e.L) (fd : ℕ) → e.on_readable (e.stop l) fd ≡ e.on_readable l fd
  pub stop_writable : (l : e.L) (fd : ℕ) → e.on_writable (e.stop l) fd ≡ e.on_writable l fd
  pub stop_stopped : (l : e.L) → e.stopped (e.stop l) ≡ true
