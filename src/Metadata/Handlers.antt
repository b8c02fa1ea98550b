-- ===== src/Metadata/Handlers.antt =====
-- metadata/metadata.go: the handlers, and the routes to them.
use teleskop.Common.{ℕ, Bool, false, List, ◌++◌, eq_bytes, if◌then◌else◌}
use teleskop.Go.Action.{Action, pure, lift, on_error, ◌>>=◌}
use teleskop.Go.Error.{Outcome}
use teleskop.Go.Net.{Net}
use teleskop.Go.Text.{Text, codes}
use teleskop.Metadata.Http.{
  Body, bytes, message, Request, Recorder, new_recorder, write_header, write, copy,
}

-- The fields of config that are set; the lists of users and commands are left empty.
pub record Config : Type 0 where
  pub manage_etc_hosts : Bool
  pub fqdn : Text
  pub hostname : Text

-- net.ResolveTCPAddr, as the bytes of the IP; GetHostnameByAddress of the datastore; yaml.Marshal; and
-- http.NotFoundHandler, which sends 404.
pub record Outside (Host : Type 0) : Type 0 where
  pub resolve_tcp_addr : Text → Outcome (List ℕ)
  pub get_hostname_by_address : Text → Action Host Text
  pub marshal : Config → Outcome Text
  pub not_found_handler : Request → Action Host Recorder

abbrev pub status_bad_request : ℕ
status_bad_request = 400

abbrev pub status_internal_server_error : ℕ
status_internal_server_error = 500

module _ {Host : Type 0} (net : Net) (outside : Outside Host) where
  -- An error's message behind a code.
  unfoldable pub respond : ℕ → Body → Action Host Recorder
  respond code part = pure (write part (write_header code new_recorder))

  -- The two handlers begin alike: the hostname of the address that a request comes from.
  unfoldable pub with_hostname : (Text → Action Host Recorder) → Request → Action Host Recorder
  with_hostname found r =
      on_error (lift (outside.resolve_tcp_addr r.remote_addr))
        (λ e. respond status_bad_request (message "failed to parse request remote address: %+v" e))
        λ ip.
          on_error (outside.get_hostname_by_address (net.ip_string ip))
            (λ e.
              respond status_internal_server_error
                (message "failed to get hostname by address: %+v" e))
            found

  unfoldable pub metadata_handler : Request → Action Host Recorder
  metadata_handler =
      with_hostname λ hostname.
        pure (write (bytes (codes "hostname: " ++ (hostname ++ codes "\n"))) new_recorder)

  unfoldable pub user_config : Text → Config
  user_config hostname = record { manage_etc_hosts = false; fqdn = hostname; hostname = hostname }

  unfoldable pub userdata_handler : Request → Action Host Recorder
  userdata_handler = with_hostname λ hostname.
      on_error (lift (outside.marshal (user_config hostname)))
        (λ e. respond status_internal_server_error (message "failed to parse user-data: %+v" e))
        λ out. pure (write (bytes (codes "#cloud-config\n" ++ out)) new_recorder)

  -- The code and the body are passed on, without the headers.
  unfoldable pub logging_handler : (Request → Action Host Recorder) → Request → Action Host Recorder
  logging_handler handler r = do
    rec ← handler r
    pure (copy rec.body (write_header rec.code new_recorder))

  -- The routes of Serve: two paths, and any other. The redirect of ServeMux from a path with empty elements,
  -- dots or a host is left out.
  unfoldable pub serve_http : Request → Action Host Recorder
  serve_http r =
      if eq_bytes r.path (codes "/meta-data")
      then logging_handler metadata_handler r
      else if eq_bytes r.path (codes "/user-data")
      then logging_handler userdata_handler r
      else logging_handler outside.not_found_handler r
