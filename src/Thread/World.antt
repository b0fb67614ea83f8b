-- ===== src/Thread/World.antt =====
-- A whole thread of wrk.c: its loop, all its connections, and the handlers and timers in any order
-- in which the loop calls them.
use wrkx.Prelude.{ℕ, ◌≡◌, ◌≢◌, Bool, some, List, ◌==◌, if◌then◌else◌}
use wrkx.Buffer.Defs.{Realloc}
use wrkx.EventLoop.{LoopLaws}
use wrkx.Connection.State.{Connection}
use wrkx.Stats.Defs.{Stats}
use wrkx.Thread.State.{Platform, Config, Thread, State}
use wrkx.Thread.Socket.{Connecting, delayed_initial_connect}
use wrkx.Thread.Timers.{calibrate_at, check_timeouts_at, sample_rate_at}
use wrkx.Thread.Live.{Live, Accepted}
use wrkx.Thread.Turns.{Call}

-- A connection waits for its timer of `delayed_initial_connect`, or has been started, with as many
-- timers of `delay_request` set as the number says.
pub data Phase : Type 0 where
  waiting : Phase
  started : ℕ → Phase

pub record Slot (F : Type 0) : Type 0 where
  pub conn : Connection F
  pub phase : Phase

-- The connections are an array.
pub record World (p : Platform) : Type 0 where
  pub thread : Thread p
  pub slots : ℕ → Slot p.float.F

module _ (p : Platform) (l : LoopLaws p.ae) where
  open p use {float, ae, hdr}

  -- the state of the handlers of connection `i`
  abbrev pub view : World p → ℕ → State p
  view w i = record { thread = w.thread; conn = (w.slots i).conn }

  abbrev pub put : World p → ℕ → Phase → State p → World p
  put w i ph s = record {
    thread = s.thread;
    slots = λ j. if j == i then record { conn = s.conn; phase = ph } else w.slots j;
  }

  -- The system accepts a new connection of `i`, its descriptor fits the loop, and no other
  -- connection that was started has it.
  abbrev pub Fresh : World p → ℕ → Connecting → Type 0
  Fresh w i a =
      Accepted p l a
      × ((j k : ℕ) → j ≢ i → (w.slots j).phase ≡ started k → a.fd ≢ (w.slots j).conn.fd)

  -- What the loop calls.
  pub data Move (libc : Realloc) (cfg : Config) (w : World p) : World p → Type 0 where
    starts :
        (i now : ℕ) (a : Connecting)
        → (w.slots i).phase ≡ waiting
        → Fresh w i a
        → Move libc cfg w (put w i (started 0) (delayed_initial_connect p now a (view w i)))
    calls :
        (i k k' : ℕ) (s' : State p)
        → (w.slots i).phase ≡ started k
        → Call p l libc cfg (Fresh w i) k (view w i) k' s'
        → Move libc cfg w (put w i (started k') s')
    calibrates : (now : ℕ) → Move libc cfg w (record w { thread = (calibrate_at p now w.thread).1 })
    checks :
        (stop : Bool) (now : ℕ) (cs : List (Connection float.F))
        → Move libc cfg w (record w { thread = (check_timeouts_at p cfg stop now cs w.thread).1 })
    samples :
        (hdr_record_value : hdr.H → ℕ → hdr.H) (now later ms : ℕ) (r r' : Stats hdr.H)
        (t : Thread p)
        → sample_rate_at p hdr_record_value now later (r, w.thread) ≡ some (ms, r', t)
        → Move libc cfg w (record w { thread = t })

  pub data Moves (libc : Realloc) (cfg : Config) (w : World p) : World p → Type 0 where
    here : Moves libc cfg w w
    next : {v u : World p} → Moves libc cfg w v → Move libc cfg v u → Moves libc cfg w u

  -- Every connection that was started is `Live`, the others have written nothing, and no two of those
  -- that were started have the same descriptor.
  pub record Watched (w : World p) : Type 0 where
    pub live : (j k : ℕ) → (w.slots j).phase ≡ started k → Live p l k (view w j)
    pub unwritten : (j : ℕ) → (w.slots j).phase ≡ waiting → (w.slots j).conn.written ≡ 0
    pub apart :
        (i j k m : ℕ)
        → i ≢ j
        → (w.slots i).phase ≡ started k
        → (w.slots j).phase ≡ started m
        → (w.slots i).conn.fd ≢ (w.slots j).conn.fd
