-- ===== src/UserClient/Tests.antt =====
-- The theorems on the user client at concrete inputs: a client of the sample driver.
use i_can.Common.{true, false, ◌≡◌, refl, none, some, [], ◌∷◌}
use i_can.Common.IoReturn.{success}
use i_can.Ring.{Header}
use i_can.Driver.Tests.{granting}
use i_can.Driver.SessionTests.{starting, willing_device, new_driver}
use i_can.UserClient.Waits.{
  check_first, take_pending, store_completion, check_second, notify_rx_data_available,
}
use i_can.UserClient.Wakeups.{Shared, idle, at_first, stored, wrote, no_lost_wakeup}
use i_can.UserClient.Wakeups as Wakeups
use i_can.UserClient.Conserved.{IsConserved, Reached-IsConserved}
use i_can.UserClient.Calls.{Platform, UserClient, Arguments, open_client}
use i_can.UserClient.Methods.{open_method, call_method}
use i_can.UserClient.Sessions.{IsLinked, Reached-IsLinked}
use i_can.UserClient.Sessions as Sessions
use i_can.Samples.{header}

-- The ring has no packets when the client hands over the action 7, and then one is written and the
-- client is notified.
abbrev empty_header : Header
empty_header = record header { rx = record { head = 0; tail = 0 } }

abbrev waiting : Shared
waiting = record (idle (some empty_header)) {
  waits = record { pending = some 7; completed = [] };
  handed = 7 ∷ [];
}

waiting-Reached : Wakeups.Reached waiting
unfolding check_first store_completion check_second
waiting-Reached =
    Wakeups.next
      (Wakeups.next (Wakeups.next (Wakeups.start (some empty_header)) (Wakeups.first 7 refl refl))
        (Wakeups.store 7 refl refl))
      (Wakeups.second refl refl)

abbrev packet_header : Header
packet_header = record header { rx = record { head = 24; tail = 0 } }

no_lost_wakeup_example : (take_pending success waiting.waits).pending ≡ none
unfolding notify_rx_data_available take_pending
no_lost_wakeup_example =
    no_lost_wakeup
      (Wakeups.next (Wakeups.next waiting-Reached (Wakeups.write (some packet_header) refl))
        (Wakeups.notify refl refl))
      refl refl refl

-- The action 7 waits, and no other does.
Reached-IsConserved_example : IsConserved waiting
Reached-IsConserved_example = Reached-IsConserved waiting-Reached

abbrev closed_client : UserClient
closed_client = record {
  has_driver = true;
  is_open = false;
  waits = record { pending = none; completed = [] };
  driver = new_driver;
}

abbrev platform : Platform
platform = record { start = starting; usb = willing_device; transfers = granting }

abbrev no_arguments : Arguments
no_arguments = record { completion = none; scalar_input = []; structure_input = [] }

Reached-IsLinked_example : IsLinked (open_client platform closed_client).1
unfolding call_method
Reached-IsLinked_example = Reached-IsLinked (
    Sessions.next (Sessions.fresh closed_client refl refl) (
      Sessions.method_step platform no_arguments open_method (open_client platform closed_client).0
        refl))
