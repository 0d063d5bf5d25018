-- ===== src/Signals/Threads.antt =====
-- The threads of the process around the table of signals (src/signal_dispatch.rs, `register` and
-- `handler`): the mutex, the signals that each thread blocks, and handlers that interrupt what a thread
-- does, a registration or another handler.
pub mod Invariant
pub mod Registering
pub mod Release
pub mod Deadlock
pub mod Examples
use eveboros.Base.{
  ℕ, ◌≡◌, Bool, true, false, Option, none, some, List, [], ◌∷◌, ◌==◌, ◌||◌, ltb, if◌then◌else◌,
}
use eveboros.Outcome.{returns, M}
use eveboros.Signals.{SignalNotifier, System, SignalDispatch, register, dispatch}

-- `register(signal, notifier)` called by a thread, and the handler of a signal that interrupted it.
pub data Activity : Type 0 where
  registering : ℕ → SignalNotifier → Activity
  handling : ℕ → Activity

-- Before `lock()`, with the mutex, with the mutex and all done, and after the mutex was given back.
pub data Phase : Type 0 where
  waiting locked finished released : Phase

-- A call on the stack of a thread, with the signals that were blocked before it.
pub record Frame : Type 0 where
  pub job : Activity
  pub phase : Phase
  pub old_mask : ℕ → Bool

pub record Thread : Type 0 where
  pub mask : ℕ → Bool
  pub stack : List Frame

-- `SIGNAL_DISPATCH`, the thread that holds its mutex, and the threads.
pub record Process (W : Type 0) : Type 0 where
  pub table : SignalDispatch W
  pub holder : Option ℕ
  pub threads : ℕ → Thread

-- `SigSet::all()`
abbrev pub block_all : ℕ → Bool
block_all s = true

-- While a handler runs its own signal is blocked, and those of `sa_mask`, which is `SigSet::empty()`.
abbrev pub block_own : ℕ → (ℕ → Bool) → ℕ → Bool
block_own signal mask s = (s == signal) || mask s

abbrev pub put_thread : ℕ → Thread → (ℕ → Thread) → ℕ → Thread
put_thread i thread threads j = if j == i then thread else threads j

module _ {W : Type 0} (system : System W) where
  -- What is done under the mutex.
  abbrev pub work_of : Activity → M (SignalDispatch W) (Unit {0})
  work_of (registering signal notifier) = register system signal notifier
  work_of (handling signal) = dispatch system signal

  -- A step of one of the threads: it calls `register` for a signal of nix, which blocks all signals
  -- first; a signal with a handler arrives that the thread does not block; the call on top of the stack
  -- takes the mutex, does its work, gives the mutex back, or returns, which restores the mask.
  pub data Step (p : Process W) : Process W → Type 0 where
    call :
        (i signal : ℕ) (notifier : SignalNotifier)
        → ltb signal system.nsig ≡ true
        → (p.threads i).stack ≡ []
        → Step p (record p {
          threads =
              put_thread i
                (record {
                  mask = block_all;
                  stack =
                      record {
                        job = registering signal notifier;
                        phase = waiting;
                        old_mask = (p.threads i).mask;
                      }
                      ∷ [];
                })
                p.threads;
        })
    arrive :
        (i signal : ℕ)
        → p.table.setup signal ≡ true
        → (p.threads i).mask signal ≡ false
        → Step p (record p {
          threads =
              put_thread i
                (record {
                  mask = block_own signal (p.threads i).mask;
                  stack =
                      record {
                        job = handling signal;
                        phase = waiting;
                        old_mask = (p.threads i).mask;
                      }
                      ∷ (p.threads i).stack;
                })
                p.threads;
        })
    lock :
        (i : ℕ) (f : Frame) (fs : List Frame)
        → (p.threads i).stack ≡ f ∷ fs
        → f.phase ≡ waiting
        → p.holder ≡ none
        → Step p (record p {
          holder = some i;
          threads =
              put_thread i
                (record { mask = (p.threads i).mask; stack = record f { phase = locked } ∷ fs })
                p.threads;
        })
    work :
        (i : ℕ) (f : Frame) (fs : List Frame) (table : SignalDispatch W)
        → (p.threads i).stack ≡ f ∷ fs
        → f.phase ≡ locked
        → work_of f.job p.table ≡ returns tt table
        → Step p (record p {
          table = table;
          threads =
              put_thread i
                (record { mask = (p.threads i).mask; stack = record f { phase = finished } ∷ fs })
                p.threads;
        })
    unlock :
        (i : ℕ) (f : Frame) (fs : List Frame)
        → (p.threads i).stack ≡ f ∷ fs
        → f.phase ≡ finished
        → Step p (record p {
          holder = none;
          threads =
              put_thread i
                (record { mask = (p.threads i).mask; stack = record f { phase = released } ∷ fs })
                p.threads;
        })
    leave :
        (i : ℕ) (f : Frame) (fs : List Frame)
        → (p.threads i).stack ≡ f ∷ fs
        → f.phase ≡ released
        → Step p (record p {
          threads = put_thread i (record { mask = f.old_mask; stack = fs }) p.threads;
        })

  pub data Steps (p : Process W) : Process W → Type 0 where
    here : Steps p p
    next : {q r : Process W} → Steps p q → Step q r → Steps p r
