-- ===== src/Adapters/Replay.antt =====
-- src/eda_lab/clients.py: `ReplayTrace32Client` and `ReplayAardvarkClient`, and the runs of the real
-- adapters over them. The text of a transaction is a parameter.
use semiconductor_domain_lab.Prelude.{
  String, Bool, true, false, not, Option, none, some, List, [], ◌∷◌, ◌++◌, ◌≡◌, refl, arith,
  if◌then◌else◌, str_eq, str_eq_refl,
}
use semiconductor_domain_lab.Prelude.Text.{◌<>◌}
use semiconductor_domain_lab.Adapters.{Fields, Value, Spec, Exception, Outcome, State}
use semiconductor_domain_lab.Adapters.Fixture.{
  Host, item, is_held, free, lock, unlock, take, acquire, collect, release, run,
}
use semiconductor_domain_lab.Adapters.Real.{
  Client, commands, get_optional, acquire_real, connect_or_release, after_connect, replies_of,
  execute_real, real_result, real_payload, close_client, release_real, trace32_methods,
}

pub record Replay : Type 0 where
  pub responses : List (String × String)
  pub connected : Bool

unfoldable pub response : List (String × String) → String → Option String
response [] key = none
response ((k, reply) ∷ rest) key =
    let more = response rest key in if str_eq k key then some reply else more

abbrev pub replay_connect : Option Value → Replay → Replay × Outcome (Unit {0})
replay_connect endpoint r = (record r { connected = true }, Outcome.returned tt)

abbrev pub replay_close : Replay → Replay × Outcome (Unit {0})
replay_close r = (record r { connected = false }, Outcome.returned tt)

replied : String → Option String → Outcome String
replied missing none = Outcome.raised (Exception.runtime_error missing)
replied missing (some reply) = Outcome.returned reply

unfoldable pub replay_trace32_command : String → Replay → Replay × Outcome String
unfolding response replied
replay_trace32_command command r =
    if not r.connected
    then (
      r,
      Outcome.raised
          (Exception.runtime_error "configuration_error: replay TRACE32 client is not connected"),
    )
    else (r, replied "fixture_missing: TRACE32 command response" (response r.responses command))

unfoldable pub replay_aardvark_transfer :
    (Fields → String) → Fields → Replay → Replay × Outcome String
unfolding response replied
replay_aardvark_transfer show transaction r =
    if not r.connected
    then (
      r,
      Outcome.raised
          (Exception.runtime_error "configuration_error: replay Aardvark client is not open"),
    )
    else (
      r,
      replied "fixture_missing: Aardvark transaction response"
          (response r.responses (show transaction)),
    )

unfoldable pub replay_trace32 : Client Replay String
unfolding replay_trace32_command
replay_trace32 = record {
  connect = replay_connect;
  command = replay_trace32_command;
  close = replay_close;
}

unfoldable pub replay_aardvark : (Fields → String) → Client Replay Fields
unfolding replay_aardvark_transfer
replay_aardvark show = record {
  connect = replay_connect;
  command = replay_aardvark_transfer show;
  close = replay_close;
}

abbrev both : Option String → Option (List String) → Option (List String)
both (some reply) (some replies) = some (reply ∷ replies)
both _ _ = none

-- The recorded replies to the commands, when there is one to each.
unfoldable pub replies_to : List (String × String) → List String → Option (List String)
unfolding response
replies_to responses [] = some []
replies_to responses (c ∷ cs) = both (response responses c) (replies_to responses cs)

command-reply :
    (c reply : String) (r : Replay)
    → r.connected ≡ true
    → response r.responses c ≡ some reply
    → replay_trace32_command c r ≡ (r, Outcome.returned reply)
unfolding replay_trace32_command replied
command-reply c reply r on e = simp (on, e) refl

commands-replies :
    (cs replies : List String) (s : State Replay)
    → s.client.connected ≡ true
    → replies_to s.client.responses cs ≡ some replies
    → commands replay_trace32 cs s ≡ (s, Outcome.returned replies)
unfolding commands replies_to replay_trace32
commands-replies [] replies s on r = ground arith
commands-replies (c ∷ cs) replies s on r =
    go (response s.client.responses c) (replies_to s.client.responses cs) refl refl r
      (λ xs. commands-replies cs xs s on)
  where
    go :
        (a : Option String) (b : Option (List String))
        → response s.client.responses c ≡ a
        → replies_to s.client.responses cs ≡ b
        → both a b ≡ some replies
        → ((xs : List String)
            → replies_to s.client.responses cs ≡ some xs
            → commands replay_trace32 cs s ≡ (s, Outcome.returned xs))
        → commands replay_trace32 (c ∷ cs) s ≡ (s, Outcome.returned replies)
    go none b e₁ e₂ e ih = ground arith
    go (some x) none e₁ e₂ e ih = ground arith
    go (some x) (some xs) e₁ e₂ e ih =
        rw (command-reply c x s.client on e₁) (rw (ih xs e₂) (ground (arith, e)))

-- A run of the TRACE32 adapter over recorded replies, on a free resource and with a recorded reply to
-- each of its commands, writes one artifact that holds the job and the replies in the commands' order,
-- gives the lock back and leaves the client disconnected.
pub run-replay :
    (h : Host) (key : String) (spec : Spec) (cs replies : List String) (s : State Replay)
    (v : Value)
    → is_held key s.held ≡ false
    → ((t : State Replay) → item spec "job_id" t ≡ (t, Outcome.returned v))
    → get_optional spec "commands" ≡ some (Value.texts cs)
    → replies_to s.client.responses cs ≡ some replies
    → run (trace32_methods h (some replay_trace32) key) spec s ≡ (
      record {
        held = s.held;
        client = record { responses = s.client.responses; connected = false };
        artifacts =
            s.artifacts
            ++ (
              h.directory <> "/trace32.json",
              record {
                source_kind = "real";
                adapter = "trace32";
                execution_status = "SUCCEEDED";
                transport_status = "OK";
                payload = ("job_id", v) ∷ ("responses", Value.texts replies) ∷ [];
              },
            )
              ∷ [];
      },
      Outcome.returned (record {
        paths = (h.directory <> "/trace32.json") ∷ [];
        source_kind = "real";
        adapter = "trace32";
      }),
    )
unfolding run trace32_methods acquire_real acquire take lock connect_or_release after_connect
    replies_of execute_real real_result real_payload close_client release_real release unlock
    is_held free collect replay_trace32 ◌<>◌
run-replay h key spec cs replies s v idle found options r = rw (found s) (
    rw idle (
      rw options (
        rw
          (commands-replies cs replies
            (record {
              held = key ∷ s.held;
              client = record { responses = s.client.responses; connected = true };
              artifacts = s.artifacts;
            })
            refl r)
          (rw
            (found (record {
              held = key ∷ s.held;
              client = record { responses = s.client.responses; connected = true };
              artifacts = s.artifacts;
            }))
            (rw (str_eq_refl key) (rw (str_eq_refl key) refl))))))
