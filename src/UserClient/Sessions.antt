-- ===== src/UserClient/Sessions.antt =====
-- The client is open exactly while its driver runs.
use i_can.Common.{
  ℕ, ◌≡◌, sym, subst, ◌∙◌, Bool, true, false, not, Option, none, some, List, ltb, if◌then◌else◌,
  if_both, arith, Bool-cases, inl, inr, length, ◌%◌, get_or,
}
use i_can.Common.Words.{u32_mod}
use i_can.Common.Outcome.{Outcome, ok, ◌>>=◌}
use i_can.Common.IoReturn.{IoReturn, not_ready, is_success}
use i_can.Driver.State.{Driver, Transfers}
use i_can.Driver.Slots.{BundledFn}
use i_can.Driver.Drains.{send_data, drain_tx_ring_of, write_complete, write_complete2}
use i_can.Driver.Channels.{open_channel_of, close_channel_of}
use i_can.Driver.Receive.{Completion, read_complete_bundled}
use i_can.Driver.Lifecycle.{start_io, stop_io, set_line_coding}
use i_can.Driver.Running.{running-start_io, running-stop_io}
use i_can.Driver.Histories.{Sends, Ensures}
use i_can.Driver.Reachable.{
  Ensures-bind, Ensures-ok, drain_tx_ring_of-Ensures, send_data-Ensures, write_complete-Ensures,
  write_complete2-Ensures, read_complete_bundled-Ensures,
}
use i_can.Driver.Calls.{open_channel_of-Sends, close_channel_of-Sends}
use i_can.UserClient.Calls.{
  Platform, UserClient, Arguments, with_driver, is_usable, open_client, close_client, stop_client,
  send_data_call, set_baud_rate, open_channel_call, close_channel_call, wait_for_data_call,
}
use i_can.UserClient.Methods.{
  Method, open_method, close_method, send_data_method, set_baud_rate_method, wait_for_data_method,
  open_channel_method, close_channel_method, call_method, wait_with,
}

-- The client is open exactly if its driver runs, and then it has a driver.
pub record IsLinked (c : UserClient) : Type 0 where
  pub runs : c.driver.is_running ≡ c.is_open
  pub linked : c.is_open ≡ true → c.has_driver ≡ true

open-IsLinked : (p : Platform) (c : UserClient) → IsLinked c → IsLinked (open_client p c).1
unfolding open_client
open-IsLinked p c v =
    let P = λ (r : IoReturn × UserClient). IsLinked r.1 in
    let (ret, d) = start_io p.start c.driver in
    let opened : UserClient = record c { driver = d; is_open = is_success ret } in
    let refused : IoReturn × UserClient = (not_ready, c) in
    let Q = λ (b : Bool). IsLinked (if not b then refused else (ret, opened)).1 in
    if_both P c.is_open v (elim (Bool-cases c.has_driver) [
      | inl e ↦
          subst Q (sym e) (record { runs = running-start_io p.start c.driver; linked = λ h. e })
      | inr e ↦ subst Q (sym e) v
    ])

true_or_false : {b : Bool} → b ≡ true → b ≡ false → ⊥
true_or_false e f = cc

closed_runs :
    (p : Platform) (c : UserClient)
    → IsLinked c
    → (if c.has_driver then (stop_io p.usb c.driver).1 else c.driver).is_running ≡ false
closed_runs p c v =
    let P = λ (b : Bool). (if b then (stop_io p.usb c.driver).1 else c.driver).is_running ≡ false in
    elim (Bool-cases c.has_driver) [
      | inl e ↦ subst P (sym e) (running-stop_io p.usb c.driver)
      | inr e ↦ subst P (sym e) (elim (Bool-cases c.is_open) [
        | inl o ↦ absurd (true_or_false (v.linked o) e)
        | inr o ↦ v.runs ∙ o
      ])
    ]

close-IsLinked : (p : Platform) (c : UserClient) → IsLinked c → IsLinked (close_client p c).1
unfolding close_client
close-IsLinked p c v =
    if_both (λ (r : IoReturn × UserClient). IsLinked r.1) (not c.is_open) v
      (record { runs = closed_runs p c v; linked = λ h. cc })

close_is_open : (p : Platform) (c : UserClient) → (close_client p c).1.is_open ≡ false
unfolding close_client
close_is_open p c = ground arith

shut_lem :
    (p : Platform) (c : UserClient)
    → (if c.is_open then (close_client p c).1 else c).is_open ≡ false
shut_lem p c =
    let P = λ (b : Bool). (if b then (close_client p c).1 else c).is_open ≡ false in
    elim (Bool-cases c.is_open) [
      | inl e ↦ subst P (sym e) (close_is_open p c)
      | inr e ↦ subst P (sym e) e
    ]

-- The first part of Stop leaves the client closed.
stopped-IsLinked : (p : Platform) (c : UserClient) → IsLinked c → IsLinked (stop_client p c)
unfolding stop_client
stopped-IsLinked p c v =
    let closed = if c.is_open then (close_client p c).1 else c in
    let linked : IsLinked closed = if_both IsLinked c.is_open (close-IsLinked p c v) v in
    let shut : closed.is_open ≡ false = shut_lem p c in
    record {
      runs =
          if_both (λ (d : Driver). d.is_running ≡ closed.is_open) closed.has_driver linked.runs
            linked.runs;
      linked = λ h. absurd (true_or_false h shut);
    }

-- A call that leaves the set-up of the driver alone.
called-IsLinked :
    (c : UserClient) (m : Outcome (IoReturn × Driver))
    → Ensures (λ (r : IoReturn × Driver). Sends c.driver r.1) m
    → IsLinked c
    → Ensures (λ (r : IoReturn × UserClient). IsLinked r.1) (m >>= with_driver c)
called-IsLinked c m h v =
    Ensures-bind (λ (r : IoReturn × UserClient). IsLinked r.1)
      (λ (r : IoReturn × Driver). Sends c.driver r.1) m (with_driver c) h
      (λ r s. record { runs = s.same_running ∙ v.runs; linked = v.linked })

abbrev KeepsLinked : Outcome (IoReturn × UserClient) → Type 0
KeepsLinked m = Ensures (λ (r : IoReturn × UserClient). IsLinked r.1) m

set_line_coding-running :
    (p : Platform) (d : Driver) (baud : ℕ)
    → (set_line_coding p.usb d baud 8 0 0).1.is_running ≡ d.is_running
unfolding set_line_coding
set_line_coding-running p d baud = ground arith

waited-IsLinked : (c : UserClient) (a : Option ℕ) → IsLinked c → KeepsLinked (wait_with c a)
unfolding wait_with wait_for_data_call
waited-IsLinked c none v = tt
waited-IsLinked c (some a) v =
    if_both (λ (r : IoReturn × UserClient). IsLinked r.1) (not (is_usable c)) v
      (record { runs = v.runs; linked = v.linked })

call_method-IsLinked :
    (p : Platform) (c : UserClient) (args : Arguments) (m : Method)
    → IsLinked c
    → KeepsLinked (call_method p c args m)
unfolding call_method send_data_call set_baud_rate open_channel_call close_channel_call wait_with
    wait_for_data_call
call_method-IsLinked p c args open_method v = open-IsLinked p c v
call_method-IsLinked p c args close_method v = close-IsLinked p c v
call_method-IsLinked p c args send_data_method v = if_both KeepsLinked (not (is_usable c)) v (
    if_both KeepsLinked (ltb 0 (length args.structure_input))
      (called-IsLinked c (send_data p.transfers c.driver args.structure_input)
        (send_data-Ensures p.transfers c.driver args.structure_input) v)
      (called-IsLinked c (drain_tx_ring_of p.transfers c.driver)
        (drain_tx_ring_of-Ensures p.transfers c.driver) v))
call_method-IsLinked p c args set_baud_rate_method v = if_both KeepsLinked (not c.has_driver) v (
    if_both KeepsLinked (ltb (length args.scalar_input) 1) v (record {
      runs = set_line_coding-running p c.driver (get_or args.scalar_input 0 0 % u32_mod) ∙ v.runs;
      linked = v.linked;
    }))
call_method-IsLinked p c args wait_for_data_method v = waited-IsLinked c args.completion v
call_method-IsLinked p c args open_channel_method v =
    let bitrate = get_or args.scalar_input 0 0 % u32_mod in
    let channel = get_or args.scalar_input 1 0 % 256 in
    if_both KeepsLinked (not (is_usable c)) v (
      if_both KeepsLinked (ltb (length args.scalar_input) 2) v (
        called-IsLinked c (open_channel_of p.transfers p.usb c.driver bitrate channel)
          (open_channel_of-Sends p.transfers p.usb c.driver bitrate channel) v))
call_method-IsLinked p c args close_channel_method v =
    let channel = get_or args.scalar_input 0 0 % 256 in
    if_both KeepsLinked (not (is_usable c)) v (
      if_both KeepsLinked (ltb (length args.scalar_input) 1) v (
        called-IsLinked c (close_channel_of p.transfers p.usb c.driver channel)
          (close_channel_of-Sends p.transfers p.usb c.driver channel) v))

-- What happens to a client: a method that returns, the stop of the service, and the completions of
-- its driver's transfers, which return too. The system may answer differently each time.
pub data Step (c e : UserClient) : Type 0 where
  method_step :
      (p : Platform) (args : Arguments) (m : Method) (ret : IoReturn)
      → call_method p c args m ≡ ok (ret, e)
      → Step c e
  stop_step : (p : Platform) → e ≡ stop_client p c → Step c e
  written_step :
      (u : Transfers) (status : IoReturn) (d : Driver)
      → write_complete u status c.driver ≡ ok d
      → e ≡ record c { driver = d }
      → Step c e
  written2_step :
      (u : Transfers) (status : IoReturn) (d : Driver)
      → write_complete2 u status c.driver ≡ ok d
      → e ≡ record c { driver = d }
      → Step c e
  read_step :
      (u : Transfers) (io : BundledFn) (clock : ℕ → ℕ) (index : ℕ) (cs : List Completion)
      (notified : Bool) (d : Driver)
      → read_complete_bundled u io clock index cs c.driver ≡ ok (d, notified)
      → e ≡ record c { driver = d }
      → Step c e

-- From a client that is closed, with a driver that does not run.
pub data Reached : UserClient → Type 0 where
  fresh : (c : UserClient) → c.is_open ≡ false → c.driver.is_running ≡ false → Reached c
  next : {c e : UserClient} → Reached c → Step c e → Reached e

with_driver-IsLinked :
    (c e : UserClient) (d : Driver)
    → Sends c.driver d
    → e ≡ record c { driver = d }
    → IsLinked c
    → IsLinked e
with_driver-IsLinked c e d s q v =
    subst IsLinked (sym q) (record { runs = s.same_running ∙ v.runs; linked = v.linked })

Step-IsLinked : (c e : UserClient) → Step c e → IsLinked c → IsLinked e
Step-IsLinked c e (method_step p args m ret q) v =
    Ensures-ok (λ (r : IoReturn × UserClient). IsLinked r.1) (call_method p c args m) (ret, e)
      (call_method-IsLinked p c args m v) q
Step-IsLinked c e (stop_step p q) v = subst IsLinked (sym q) (stopped-IsLinked p c v)
Step-IsLinked c e (written_step u status d q r) v =
    with_driver-IsLinked c e d
      (Ensures-ok (Sends c.driver) (write_complete u status c.driver) d
        (write_complete-Ensures u status c.driver) q)
      r v
Step-IsLinked c e (written2_step u status d q r) v =
    with_driver-IsLinked c e d
      (Ensures-ok (Sends c.driver) (write_complete2 u status c.driver) d
        (write_complete2-Ensures u status c.driver) q)
      r v
Step-IsLinked c e (read_step u io clock index cs notified d q r) v =
    with_driver-IsLinked c e d
      (Ensures-ok (λ (p : Driver × Bool). Sends c.driver p.0)
        (read_complete_bundled u io clock index cs c.driver) (d, notified)
        (read_complete_bundled-Ensures u io clock index cs c.driver) q)
      r v

-- Whatever methods a client calls, whenever the service stops or a transfer completes, and whatever
-- the system answers: the client is open exactly while the driver runs, and an open client has
-- its driver.
pub Reached-IsLinked : {c : UserClient} → Reached c → IsLinked c
Reached-IsLinked (fresh c o r) = record {
  runs = r ∙ sym o;
  linked = λ h. absurd (true_or_false h o);
}
Reached-IsLinked (next {c} {e} r st) = Step-IsLinked c e st (Reached-IsLinked r)
