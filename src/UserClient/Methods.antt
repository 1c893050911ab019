-- ===== src/UserClient/Methods.antt =====
-- ExternalMethod and its table.
use i_can.Common.{ℕ, suc, zero, Bool, true, false, Option, none, some, List, [], ◌∷◌}
use i_can.Common.Outcome.{Outcome, ok, undefined}
use i_can.Common.IoReturn.{IoReturn, bad_argument}
use i_can.UserClient.Calls.{
  Platform, UserClient, Arguments, open_client, close_client, send_data_call, set_baud_rate,
  open_channel_call, close_channel_call, wait_for_data_call,
}

-- IOUserClientMethodDispatch, less the function: `none` is kIOUserClientVariableStructureSize.
pub record Dispatch : Type 0 where
  pub check_completion_exists : Bool
  pub check_scalar_input_count : ℕ
  pub check_structure_input_size : Option ℕ

abbrev pub dispatch_of : Bool → ℕ → Option ℕ → Dispatch
dispatch_of completion scalars structure = record {
  check_completion_exists = completion;
  check_scalar_input_count = scalars;
  check_structure_input_size = structure;
}

-- CANDriverMethod, in the order of the numbers.
pub data Method : Type 0 where
  open_method close_method send_data_method set_baud_rate_method wait_for_data_method : Method
  open_channel_method close_channel_method : Method

abbrev pub methods : List Method
methods =
    open_method ∷ close_method ∷ send_data_method ∷ set_baud_rate_method ∷ wait_for_data_method
    ∷ open_channel_method ∷ close_channel_method ∷ []

-- sMethods: what is checked before the method is called. No method has an output.
abbrev pub dispatch : Method → Dispatch
dispatch open_method = dispatch_of false 0 (some 0)
dispatch close_method = dispatch_of false 0 (some 0)
dispatch send_data_method = dispatch_of false 0 none
dispatch set_baud_rate_method = dispatch_of false 1 (some 0)
dispatch wait_for_data_method = dispatch_of true 0 (some 0)
dispatch open_channel_method = dispatch_of false 2 (some 0)
dispatch close_channel_method = dispatch_of false 1 (some 0)

-- WaitForData reads the completion with no test.
unfoldable pub wait_with : UserClient → Option ℕ → Outcome (IoReturn × UserClient)
wait_with c none = undefined
wait_with c (some a) = ok (wait_for_data_call c a)

-- The function of a method.
unfoldable pub call_method :
    Platform → UserClient → Arguments → Method → Outcome (IoReturn × UserClient)
unfolding wait_with
call_method p c args open_method = ok (open_client p c)
call_method p c args close_method = ok (close_client p c)
call_method p c args send_data_method = send_data_call p c args
call_method p c args set_baud_rate_method = set_baud_rate p c args
call_method p c args wait_for_data_method = wait_with c args.completion
call_method p c args open_channel_method = open_channel_call p c args
call_method p c args close_channel_method = close_channel_call p c args

-- The method of a selector, if it is below kCANDriverMethodCount.
abbrev pub method_at : List Method → ℕ → Option Method
method_at [] n = none
method_at (m ∷ ms) zero = some m
method_at (m ∷ ms) (suc n) = method_at ms n

unfoldable pub checked_method :
    (Dispatch → Arguments → Option IoReturn)
    → Platform
    → UserClient
    → Arguments
    → Option Method
    → Outcome (IoReturn × UserClient)
unfolding call_method
checked_method refuses p c args none = ok (bad_argument, c)
checked_method refuses p c args (some m) = elim (refuses (dispatch m) args) [
  | some ret ↦ ok (ret, c)
  | none ↦ call_method p c args m
]

-- USBCANUserClient::ExternalMethod; `refuses` stands for the checks of the base class, with the
-- result for arguments that fail them.
unfoldable pub external_method :
    (Dispatch → Arguments → Option IoReturn)
    → Platform
    → UserClient
    → ℕ
    → Arguments
    → Outcome (IoReturn × UserClient)
unfolding checked_method
external_method refuses p c selector args =
    checked_method refuses p c args (method_at methods selector)
