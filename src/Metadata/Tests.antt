-- ===== src/Metadata/Tests.antt =====
-- The metadata server of a host that knows one name.
use teleskop.Common.{ℕ, true, ⊤, ◌≡◌, refl, none, [], ◌∷◌, ◌++◌}
use teleskop.Go.Action.{pure}
use teleskop.Go.Error.{ok, err, external}
use teleskop.Go.Net.{Net}
use teleskop.Go.Text.{Text, codes}
use teleskop.Metadata.Handlers.{
  Outside, metadata_handler, userdata_handler, serve_http, with_hostname,
}
use teleskop.Metadata.Http.{bytes, new_recorder, write, write_header}
use teleskop.Metadata.Serve.{returned, closed, state, Step, Reach, serve_returns}
use teleskop.Metadata.Replay.{serve_http_lem}

abbrev net : Net
net = record {
  parse_ip = λ s. none;
  ip_string = λ ip. codes "192.0.2.1";
  parse_mac = λ s. err (external "no address");
  mac_string = λ mac. [];
  parse_cidr = λ s. err (external "no address");
  mask_size = λ mask. 24;
}

abbrev outside : Outside ⊤
outside = record {
  resolve_tcp_addr = λ s. ok (192 ∷ 0 ∷ 2 ∷ 1 ∷ []);
  get_hostname_by_address = λ s. pure (codes "vm");
  marshal = λ config. ok (codes "hostname: " ++ config.hostname);
  not_found_handler = λ r. pure (write_header 404 new_recorder);
}

abbrev remote : Text
remote = codes "192.0.2.1:49152"

-- The response is the name.
names :
    (metadata_handler net outside (record { path = []; remote_addr = remote }) tt).0
    ≡ ok (write (bytes (codes "hostname: vm\n")) new_recorder)
unfolding metadata_handler with_hostname codes
names = refl

serve_http_lem_example :
    (serve_http net outside (record { path = codes "/meta-data"; remote_addr = remote }) tt
      ≡ metadata_handler net outside
          (record { path = codes "/meta-data"; remote_addr = remote })
          tt)
    × (serve_http net outside (record { path = codes "/user-data"; remote_addr = remote }) tt
        ≡ userdata_handler net outside
            (record { path = codes "/user-data"; remote_addr = remote })
            tt)
serve_http_lem_example = serve_http_lem net outside remote tt

-- A request is served while the shutdown begins.
shut_down_run : Reach (state (returned (ok tt)) closed true 0)
shut_down_run =
    Reach.next
      (Reach.next
        (Reach.next
          (Reach.next
            (Reach.next
              (Reach.next (Reach.next (Reach.next Reach.start Step.listen) Step.accept) Step.cancel)
              Step.shut_down)
            Step.serve_ends)
          Step.finish)
        Step.shutdown_returns)
      Step.receive

serve_returns_example : (true ≡ true) × (◌≡◌ {A = ℕ} 0 0)
serve_returns_example = serve_returns closed true 0 shut_down_run
