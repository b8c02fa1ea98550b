-- ===== src/Dhcp/Loop.antt =====
-- What ends the server's loop.
use teleskop.Common.{ℕ, zero, suc, ⊤, ◌≡◌, refl, Bool, true, false, Option, if◌then◌else◌}
use teleskop.Dhcp.Packet.{Packet, Constants, Interface, DhcpLease, Wire}
use teleskop.Dhcp.Server.{answer, handle, serve_rounds}
use teleskop.Go.Action.{Action, pure, continue, either, on_error}
use teleskop.Go.Error.{Error, Outcome, ok, err, panic, or_else, wrapped}
use teleskop.Go.Net.{Net}

-- A call that returns no error: it may panic.
record NoError {W A : Type 0} (m : Action W A) : Type 0 where
  pub at : (w : W) (e : Error) → (m w).0 ≡ err e → ⊥

module _ {W A B : Type 0} where
  either-NoError :
      (o : Outcome A) (w : W) (failed : Error → Action W B) (f : A → Action W B) (e : Error)
      → ((e' : Error) → NoError (failed e'))
      → ((a : A) → NoError (f a))
      → (either o failed f w).0 ≡ err e
      → ⊥
  either-NoError (ok a) w failed f e hm hf h = (hf a).at w e h
  either-NoError (err e') w failed f e hm hf h = (hm e').at w e h
  either-NoError panic w failed f e hm hf h = cc

  NoError-on_error :
      (m : Action W A) (failed : Error → Action W B) (f : A → Action W B)
      → ((e : Error) → NoError (failed e))
      → ((a : A) → NoError (f a))
      → NoError (on_error m failed f)
  NoError-on_error m failed f hm hf = record {
    at = λ w e h. either-NoError (m w).0 (m w).1 failed f e hm hf h;
  }

NoError-pure : {W A : Type 0} (a : A) → NoError {W = W} (pure a)
NoError-pure a = record { at = λ w e h. cc }

NoError-if :
    {W A : Type 0} (b : Bool) (m n : Action W A)
    → NoError m
    → NoError n
    → NoError (if b then m else n)
NoError-if true m n hm hn = hm
NoError-if false m n hm hn = hn

module _ {Host : Type 0} (net : Net) (constants : Constants) (wire : Wire Host) where
  ruleset going_on = (NoError-pure, NoError-if, NoError-on_error)

  answer-NoError :
      (intf : Interface) (req : Packet) (lease : Option DhcpLease)
      → NoError (answer net constants wire intf req lease)
  unfolding answer
  answer-NoError intf req lease = search going_on

  handle-NoError : (packet : Packet × Interface) → NoError (handle net constants wire packet)
  unfolding handle
  handle-NoError (req, intf) = search (going_on, answer-NoError)

  -- The cause of an error of the loop.
  pub record Received (e : Error) : Type 0 where
    pub host : Host
    pub cause : Error
    pub failed : (wire.recv_dhcp host).0 ≡ err cause
    pub reported : e ≡ wrapped "failed to receive DHCP request: %w" cause

  recv_step :
      (o : Outcome (Packet × Interface)) (w w' : Host) (n : Packet × Interface → Action Host ⊤)
      (e : Error)
      → (wire.recv_dhcp w).0 ≡ o
      → ((p : Packet × Interface) (v : Host) → (n p v).0 ≡ err e → Received e)
      → (continue (or_else o (wrapped "failed to receive DHCP request: %w")) n w').0 ≡ err e
      → Received e
  recv_step (ok p) w w' n e r hn h = hn p w' h
  recv_step (err cause) w w' n e r hn h = record {
    host = w;
    cause = cause;
    failed = r;
    reported = cc;
  }
  recv_step panic w w' n e r hn h = cc

  after_step :
      (o : Outcome ⊤) (w : Host) (n : Action Host ⊤) (e : Error)
      → (o ≡ err e → ⊥)
      → ((v : Host) → (n v).0 ≡ err e → Received e)
      → (continue o (λ _. n) w).0 ≡ err e
      → Received e
  after_step (ok a) w n e never hn h = hn w h
  after_step (err e') w n e never hn h = absurd (never h)
  after_step panic w n e never hn h = cc

  -- The loop of ListenAndServe returns an error only where RecvDHCP has returned it: a failed lookup of
  -- the lease, a response that cannot be made and a failed SendDHCP do not end it.
  pub serve_rounds_error :
      (rounds : ℕ) (w : Host) (e : Error)
      → (serve_rounds net constants wire rounds w).0 ≡ err e
      → Received e
  unfolding serve_rounds
  serve_rounds_error zero w e h = cc
  serve_rounds_error (suc rounds) w e h =
      recv_step (wire.recv_dhcp w).0 w (wire.recv_dhcp w).1 _ e refl
        (λ p v.
          after_step (handle net constants wire p v).0 (handle net constants wire p v).1
            (serve_rounds net constants wire rounds) e ((handle-NoError p).at v e)
            (λ u. serve_rounds_error rounds u e))
        h
