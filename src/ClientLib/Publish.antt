-- ===== src/ClientLib/Publish.antt =====
-- mbus_client_publish_with_options_unlocked of src/client/client.c.
use mbus.Base.{Option, none, some, String, if◌then◌else◌, Rc, ok, fail}
use mbus.Base.Int.{ℤ}
use mbus.Method.{
  event_destination_subscribers, type_event, tag_destination, tag_identifier, tag_payload,
}
use mbus.Server.{server_identifier}
use mbus.ClientLib.{
  Runtime, MbusClient, Qos, at_most_once, at_least_once, exactly_once, on_nothing, on_event,
  no_context, wakeup_publish,
}
use mbus.ClientLib.Requests.{is_connected, or_default, queue_request, request_create}
use mbus.ClientLib.Commands.{command_with_options, wakeup}

pub record PublishOptions (J : Type 0) : Type 0 where
  pub destination : Option String
  pub event : Option String
  pub payload : Option J
  pub qos : Qos
  pub timeout : ℤ

abbrev pub destination_or_subscribers : Option String → String
destination_or_subscribers none = event_destination_subscribers
destination_or_subscribers (some destination) = destination

module _ {J : Type 0} (rt : Runtime J) where
  open rt use {cj}

  unfoldable pub event_payload : String → String → Option J → J
  event_payload destination event payload =
      cj.add_item_to_object
        (cj.add_item_to_object
          (cj.add_item_to_object cj.create_object tag_destination (cj.create_string destination))
          tag_identifier (cj.create_string event))
        tag_payload (elim payload [ none ↦ cj.create_object | some p ↦ cj.duplicate p ])

  -- A command that could not be queued is only logged, and the call succeeds.
  unfoldable pub publish_to :
      MbusClient J → Qos → String → String → Option J → ℤ → MbusClient J × Rc
  unfolding event_payload queue_request wakeup
  publish_to c at_most_once destination event payload timeout =
      elim (request_create rt type_event destination event c.sequence payload on_nothing no_context
        timeout) [ none ↦ (c, fail) | some r ↦ (wakeup (queue_request c r) wakeup_publish, ok) ]
  publish_to c at_least_once destination event payload timeout =
      let (c', rc) = command_with_options rt c (record {
        destination = some server_identifier;
        command = some "command.event";
        payload = some (event_payload destination event payload);
        callback = on_event;
        context = no_context;
        timeout = timeout;
      }) in
      (wakeup c' wakeup_publish, ok)
  publish_to c exactly_once destination event payload timeout = (c, fail)

  unfoldable pub publish_with_options : MbusClient J → PublishOptions J → MbusClient J × Rc
  unfolding publish_to or_default
  publish_with_options c options =
      if is_connected c.state
      then elim options.event [
        | none ↦ (c, fail)
        | some event ↦
            publish_to c options.qos (destination_or_subscribers options.destination) event
              options.payload (or_default options.timeout c.options.publish_timeout)
      ]
      else (c, fail)
