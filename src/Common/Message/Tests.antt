-- ===== src/Common/Message/Tests.antt =====
-- An EVENT with its keys in another order.
use uchi_pulse.Base.{◌≡◌, refl, [], ◌∷◌, ok}
use uchi_pulse.Common.Message.{MessageType, UdpMessage, Field, visit_map, message_type}
use uchi_pulse.Common.Message.Visitor.{visit_map_iff}

visit_map_iff_example :
    visit_map (
      Field.action_id 7
      ∷ Field.ignore
      ∷ Field.event_id "e"
      ∷ Field.type_tag MessageType.event
      ∷ Field.device_id "n"
      ∷ [])
    ≡ ok (UdpMessage.event "n" "e" 7)
unfolding message_type
visit_map_iff_example = (visit_map_iff _ (UdpMessage.event "n" "e" 7)).1 (refl, refl, refl, refl)
