-- ===== src/Hub/Udp/Managed.antt =====
-- Which devices the hub listens to.
use uchi_pulse.Base.{
  ◌≡◌, ◌↔◌, String, true, some, List, ℕ, Option, arith, ok, is_some, inl, inr, none, Result-cases,
}
use uchi_pulse.Common.Message.{UdpMessage}
use uchi_pulse.Common.Codec.{Json}
use uchi_pulse.Hub.Database.{DeviceRecord, Repository}
use uchi_pulse.Hub.State.{device}
use uchi_pulse.Hub.Udp.{ActionHandler, HubUdpProcessor, is_enabled_managed_device}

-- The hub keeps a communication state of the device, and its database holds it as enabled.
pub record IsManaged {Db Failure H : Type 0} (repository : Repository Db Failure)
    (p : HubUdpProcessor Db H) (d : String) : Type 0 where
  pub is_kept : is_some (device p.manager d) ≡ true
  pub row : DeviceRecord
  pub is_stored : repository.get_device p.db d ≡ ok (some row)
  pub is_enabled : row.enabled ≡ true

module _ {Db Failure H E : Type 0} (json : Json UdpMessage) (utf8 : List ℕ → Option String)
    (repository : Repository Db Failure) (actions : ActionHandler Db H E) where
  pub is_enabled_managed_device_iff :
      (p : HubUdpProcessor Db H) (d : String)
      → (is_enabled_managed_device json utf8 repository actions p d ≡ ok true)
        ↔ IsManaged repository p d
  unfolding is_enabled_managed_device
  is_enabled_managed_device_iff p d = (
    λ h. elim (Result-cases (repository.get_device p.db d)) [
      | inr (failure, failed) ↦ absurd (ground arith)
      | inl (none, missing) ↦ absurd (ground arith)
      | inl (some row, found) ↦ record {
        is_kept = ground arith;
        row = row;
        is_stored = found;
        is_enabled = ground arith;
      }
    ],
    λ m. ground (arith, m.is_kept, m.is_stored, m.is_enabled),
  )
