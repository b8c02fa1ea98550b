-- ===== src/Metadata/Replay.antt =====
-- The wrapper that logs, around the two handlers.
use teleskop.Common.{ℕ, ◌≡◌, refl, ap, sym, eq_bytes}
use teleskop.Go.Action.{Action, pure, continue, either, on_error}
use teleskop.Go.Error.{Error, Outcome, ok, err, panic}
use teleskop.Go.Net.{Net}
use teleskop.Go.Outcome.{ok_inj}
use teleskop.Go.Text.{Text, codes}
use teleskop.Metadata.Handlers.{
  Outside, respond, with_hostname, metadata_handler, userdata_handler, logging_handler, serve_http,
}
use teleskop.Metadata.Http.{Body, Request, Recorder, new_recorder, write_header, write, copy}

-- A handler whose response is the same once its code and its body are written again.
record Replays {W : Type 0} (m : Action W Recorder) : Type 0 where
  pub at :
      (w : W) (rec : Recorder)
      → (m w).0 ≡ ok rec
      → copy rec.body (write_header rec.code new_recorder) ≡ rec

module _ {W A : Type 0} where
  either-Replays :
      (o : Outcome A) (w : W) (failed : Error → Action W Recorder) (f : A → Action W Recorder)
      (rec : Recorder)
      → ((e : Error) → Replays (failed e))
      → ((a : A) → Replays (f a))
      → (either o failed f w).0 ≡ ok rec
      → copy rec.body (write_header rec.code new_recorder) ≡ rec
  either-Replays (ok a) w failed f rec hm hf h = (hf a).at w rec h
  either-Replays (err e) w failed f rec hm hf h = (hm e).at w rec h
  either-Replays panic w failed f rec hm hf h = cc

  Replays-on_error :
      (m : Action W A) (failed : Error → Action W Recorder) (f : A → Action W Recorder)
      → ((e : Error) → Replays (failed e))
      → ((a : A) → Replays (f a))
      → Replays (on_error m failed f)
  Replays-on_error m failed f hm hf = record {
    at = λ w rec h. either-Replays (m w).0 (m w).1 failed f rec hm hf h;
  }

Replays-write : {W : Type 0} (part : Body) → Replays {W = W} (pure (write part new_recorder))
unfolding write copy write_header
Replays-write part = record { at = λ w rec h. rw (sym (ok_inj _ rec h)) refl }

replay_step :
    {W : Type 0} (o : Outcome Recorder) (w : W)
    → ((rec : Recorder) → o ≡ ok rec → copy rec.body (write_header rec.code new_recorder) ≡ rec)
    → continue o (λ rec. pure (copy rec.body (write_header rec.code new_recorder))) w ≡ (o, w)
replay_step (ok rec) w h = ap (λ r. (ok r, w)) (h rec refl)
replay_step (err e) w h = refl
replay_step panic w h = refl

module _ {Host : Type 0} (net : Net) (outside : Outside Host) where
  respond-Replays : (code : ℕ) (part : Body) → Replays (respond net outside code part)
  unfolding respond write copy write_header
  respond-Replays code part = record { at = λ w rec h. rw (sym (ok_inj _ rec h)) refl }

  with_hostname-Replays :
      (found : Text → Action Host Recorder) (r : Request)
      → ((hostname : Text) → Replays (found hostname))
      → Replays (with_hostname net outside found r)
  unfolding with_hostname
  with_hostname-Replays found r h = search (Replays-on_error, respond-Replays, h)

  metadata_handler-Replays : (r : Request) → Replays (metadata_handler net outside r)
  unfolding metadata_handler
  metadata_handler-Replays r = search (with_hostname-Replays, Replays-write)

  userdata_handler-Replays : (r : Request) → Replays (userdata_handler net outside r)
  unfolding userdata_handler
  userdata_handler-Replays r =
      search (with_hostname-Replays, Replays-on_error, respond-Replays, Replays-write)

  logging_handler-Replays :
      (handler : Request → Action Host Recorder) (r : Request) (w : Host)
      → Replays (handler r)
      → logging_handler net outside handler r w ≡ handler r w
  unfolding logging_handler
  logging_handler-Replays handler r w replays =
      replay_step (handler r w).0 (handler r w).1 λ rec h. replays.at w rec h

  -- The logging wrapper changes nothing of the two handlers: the server responds to /meta-data and to
  -- /user-data as metadataHandler and userdataHandler do, with the same effects.
  pub serve_http_lem :
      (remote_addr : Text) (w : Host)
      → (serve_http net outside (record { path = codes "/meta-data"; remote_addr = remote_addr }) w
          ≡ metadata_handler net outside
              (record { path = codes "/meta-data"; remote_addr = remote_addr })
              w)
        × (serve_http net outside
              (record { path = codes "/user-data"; remote_addr = remote_addr })
              w
            ≡ userdata_handler net outside
                (record { path = codes "/user-data"; remote_addr = remote_addr })
                w)
  unfolding serve_http eq_bytes codes
  serve_http_lem remote_addr w = (
    logging_handler-Replays (metadata_handler net outside) _ w (metadata_handler-Replays _),
    logging_handler-Replays (userdata_handler net outside) _ w (userdata_handler-Replays _),
  )
