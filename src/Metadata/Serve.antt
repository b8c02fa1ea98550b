-- ===== src/Metadata/Serve.antt =====
-- metadata/metadata.go, Serve: its two goroutines and the requests of the server, as a step relation.
use teleskop.Common.{arith, ℕ, zero, suc, ⊤, ◌≡◌, refl, Bool, true, false}
use teleskop.Go.Error.{Error, Outcome, ok, err, panic, wrapped}

-- Where Serve is: before net.Listen, in srv.Serve, behind it at the channel, or at its end.
pub data Main : Type 0 where
  listening serving awaiting : Main
  returned : Outcome ⊤ → Main

-- Where the goroutine for the shutdown is: not started, at ctx.Done, in srv.Shutdown, or behind the closing of
-- the channel.
pub data Helper : Type 0 where
  not_started watching shutting_down closed : Helper

-- Both, whether the context is done, and the number of requests that are being served.
pub data State : Type 0 where
  state : Main → Helper → Bool → ℕ → State

-- Shutdown first closes the listener, so no request is accepted any more, and returns, with an error of the
-- listener or without one, when no request is being served. From its call on srv.Serve returns
-- ErrServerClosed.
pub data Step : State → State → Type 0 where
  listen_fails :
      {h : Helper} {done : Bool} {n : ℕ} (e : Error)
      → Step
          (state Main.listening h done n)
          (state (returned (err (wrapped "failed to listen: %w" e))) h done n)
  listen :
      {done : Bool} {n : ℕ}
      → Step (state Main.listening not_started done n) (state serving watching done n)
  cancel :
      {m : Main} {h : Helper} {done : Bool} {n : ℕ} → Step (state m h done n) (state m h true n)
  accept :
      {done : Bool} {n : ℕ}
      → Step (state serving watching done n) (state serving watching done (suc n))
  finish :
      {m : Main} {h : Helper} {done : Bool} {n : ℕ}
      → Step (state m h done (suc n)) (state m h done n)
  shut_down : {m : Main} {n : ℕ} → Step (state m watching true n) (state m shutting_down true n)
  shutdown_returns :
      {m : Main} {done : Bool} → Step (state m shutting_down done zero) (state m closed done zero)
  serve_fails :
      {h : Helper} {done : Bool} {n : ℕ} (e : Error)
      → Step
          (state serving h done n)
          (state (returned (err (wrapped "failed to serve: %w" e))) h done n)
  -- ErrServerClosed, during the shutdown and behind it.
  serve_ends :
      {done : Bool} {n : ℕ}
      → Step (state serving shutting_down done n) (state awaiting shutting_down done n)
  serve_ended :
      {done : Bool} {n : ℕ} → Step (state serving closed done n) (state awaiting closed done n)
  receive :
      {done : Bool} {n : ℕ}
      → Step (state awaiting closed done n) (state (returned (ok tt)) closed done n)

pub data Reach : State → Type 0 where
  start : Reach (state Main.listening not_started false 0)
  next : {s t : State} → Reach s → Step s t → Reach t

-- Serve is not behind srv.Serve without an error; and it has not returned without one.
abbrev pub Before : Main → Type 0
Before awaiting = ⊥
Before (returned (ok a)) = ⊥
Before _ = ⊤

abbrev pub Running : Main → Type 0
Running (returned (ok a)) = ⊥
Running _ = ⊤

-- What holds at each place of the goroutine.
abbrev pub IsSound : State → Type 0
IsSound (state m not_started done n) = Before m
IsSound (state m watching done n) = Before m
IsSound (state m shutting_down done n) = (done ≡ true) × Running m
IsSound (state m closed done n) = (done ≡ true) × (n ≡ 0)

Before-Running : (m : Main) → Before m → Running m
Before-Running listening b = tt
Before-Running serving b = tt
Before-Running awaiting b = absurd b
Before-Running (returned (ok a)) b = absurd b
Before-Running (returned (err e)) b = tt
Before-Running (returned panic) b = tt

-- An end with an error keeps to what holds.
fails-IsSound :
    (m : Main) (e : Error) (h : Helper) (done : Bool) (n : ℕ)
    → IsSound (state m h done n)
    → IsSound (state (returned (err e)) h done n)
fails-IsSound m e not_started done n sound = tt
fails-IsSound m e watching done n sound = tt
fails-IsSound m e shutting_down done n sound = (sound.0, tt)
fails-IsSound m e closed done n sound = sound

cancel-IsSound :
    (m : Main) (h : Helper) (done : Bool) (n : ℕ)
    → IsSound (state m h done n)
    → IsSound (state m h true n)
cancel-IsSound m not_started done n sound = sound
cancel-IsSound m watching done n sound = sound
cancel-IsSound m shutting_down done n sound = (refl, sound.1)
cancel-IsSound m closed done n sound = (refl, sound.1)

finish-IsSound :
    (m : Main) (h : Helper) (done : Bool) (n : ℕ)
    → IsSound (state m h done (suc n))
    → IsSound (state m h done n)
finish-IsSound m not_started done n sound = sound
finish-IsSound m watching done n sound = sound
finish-IsSound m shutting_down done n sound = sound
finish-IsSound m closed done n sound = absurd (omega (arith, sound.1))

Step-IsSound : {s t : State} → Step s t → IsSound s → IsSound t
Step-IsSound (listen_fails {h} {done} {n} e) sound =
    fails-IsSound listening (wrapped "failed to listen: %w" e) h done n sound
Step-IsSound listen sound = tt
Step-IsSound (cancel {m} {h} {done} {n}) sound = cancel-IsSound m h done n sound
Step-IsSound accept sound = tt
Step-IsSound (finish {m} {h} {done} {n}) sound = finish-IsSound m h done n sound
Step-IsSound (shut_down {m}) sound = (refl, Before-Running m sound)
Step-IsSound shutdown_returns sound = (sound.0, refl)
Step-IsSound (serve_fails {h} {done} {n} e) sound =
    fails-IsSound serving (wrapped "failed to serve: %w" e) h done n sound
Step-IsSound serve_ends sound = sound
Step-IsSound serve_ended sound = sound
Step-IsSound receive sound = sound

Reach-IsSound : {s : State} → Reach s → IsSound s
Reach-IsSound start = tt
Reach-IsSound (next r st) = Step-IsSound st (Reach-IsSound r)

sound_end :
    (h : Helper) (done : Bool) (n : ℕ)
    → IsSound (state (returned (ok tt)) h done n)
    → (done ≡ true) × (n ≡ 0)
sound_end not_started done n sound = absurd sound
sound_end watching done n sound = absurd sound
sound_end shutting_down done n sound = absurd sound.1
sound_end closed done n sound = sound

-- However the two goroutines and the requests interleave, where Serve has returned nil, its context is done
-- and no request is being served.
pub serve_returns :
    (h : Helper) (done : Bool) (n : ℕ)
    → Reach (state (returned (ok tt)) h done n)
    → (done ≡ true) × (n ≡ 0)
serve_returns h done n reached = sound_end h done n (Reach-IsSound reached)
