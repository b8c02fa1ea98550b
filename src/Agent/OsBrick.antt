-- ===== src/Agent/OsBrick.antt =====
-- block_device.go and iqn.go: the handlers over github.com/lovi-cloud/go-os-brick.
use teleskop.Api.Requests.{ConnectBlockDeviceRequest, DisconnectBlockDeviceRequest}
use teleskop.Api.Responses.{ConnectBlockDeviceResponse, GetIscsiQualifiedNameResponse}
use teleskop.Common.{ℕ, ⊤, List, [], ◌∷◌}
use teleskop.Go.Action.{Action, pure, wrap_error, ◌>>=◌}
use teleskop.Go.Error.{status, internal}
use teleskop.Go.Text.{Text}

-- The functions of package osbrick. A LUN is an int made of a uint32.
pub record OsBrick (Host : Type 0) : Type 0 where
  pub connect_single_path_volume : Text → ℕ → Action Host Text
  pub connect_multipath_volume : List Text → ℕ → Action Host Text
  pub disconnect_single_path_volume : Text → ℕ → Action Host ⊤
  pub disconnect_volume : List Text → ℕ → Action Host ⊤
  pub get_iqn : Action Host Text

module _ {Host : Type 0} (osbrick : OsBrick Host) where
  -- The switch on the number of addresses: one, or any other number.
  unfoldable pub connect : List Text → ℕ → Action Host Text
  connect (address ∷ []) lun = osbrick.connect_single_path_volume address lun
  connect addresses lun = osbrick.connect_multipath_volume addresses lun

  unfoldable pub disconnect : List Text → ℕ → Action Host ⊤
  disconnect (address ∷ []) lun = osbrick.disconnect_single_path_volume address lun
  disconnect addresses lun = osbrick.disconnect_volume addresses lun

  unfoldable pub connect_block_device :
      ConnectBlockDeviceRequest → Action Host ConnectBlockDeviceResponse
  connect_block_device req = do
    device_name ←
        wrap_error (connect req.portal_addresses req.host_lun_id)
          (status internal "failed to connect block device: %+v")
    pure (record { device_name = device_name })

  unfoldable pub disconnect_block_device : DisconnectBlockDeviceRequest → Action Host ⊤
  disconnect_block_device req =
      wrap_error (disconnect req.portal_addresses req.host_lun_id)
        (status internal "failed to disconnect block device: %+v")

  unfoldable pub get_iscsi_qualified_name : Action Host GetIscsiQualifiedNameResponse
  get_iscsi_qualified_name = do
    iqn ← wrap_error osbrick.get_iqn (status internal "failed to get iqn: %+v")
    pure (record { iqn = iqn })
