-- ===== src/Daemon/Ipc/Course.antt =====
-- The course of a tool call up to its await: answered before it is registered, or admitted.
use browser_skill.Prelude.{
  ℕ, ◌≡◌, refl, ◌⊎◌, inl, inr, Bool, false, Option, some, String, arith, ite, Option-cases,
  Bool-cases,
}
use browser_skill.Protocol.Method.{Method, Method-discrete, requires_interrupt_gate}
use browser_skill.Protocol.Frame.{RpcError, ResponseBody}
use browser_skill.Daemon.Inflight
use browser_skill.Daemon.Interrupts.{Interrupts, try_consume}
use browser_skill.Daemon.Queues.{ToolJob}
use browser_skill.Daemon.State.{Daemon}
use browser_skill.Daemon.Ipc.{
  ToolParams, Admission, replied, aborted, gated, timed, admit, dispatch, dispatch_unlocked,
  begin_tool_dispatch, named_session, fail,
}
use browser_skill.Daemon.Times.{invalid, within, bad_timeout, tool_dispatch_timeout}

abbrev pub job_for : Method → String → ℕ → ToolParams → ℕ → ToolJob
job_for m sid limit p a = record {
  method = m;
  params = p.raw;
  timeout = limit;
  inflight = some a;
  session_id = sid;
}

timeout-cases :
    (ms : Option (Option ℕ))
    → ((limit : ℕ) × (tool_dispatch_timeout ms ≡ within limit))
      ⊎ ((x : RpcError) × (tool_dispatch_timeout ms ≡ bad_timeout x))
timeout-cases ms =
    elim (tool_dispatch_timeout ms)
      as (λ t. ((limit : ℕ) × (t ≡ within limit)) ⊎ ((x : RpcError) × (t ≡ bad_timeout x))) [
        | within limit ↦ inl (limit, refl)
        | bad_timeout x ↦ inr (x, refl)
      ]

pub admit-cases :
    (rpc_id ws_rpc_id sid : String) (m : Method) (limit now : ℕ) (p : ToolParams) (d : Daemon)
    (a : ℕ)
    → (Inflight.register rpc_id sid d.tool_inflight).1 ≡ some a
    → let d₁ = record d { tool_inflight = (Inflight.register rpc_id sid d.tool_inflight).0 } in
      let job = job_for m sid limit p a in
      (admit rpc_id m sid limit p now ws_rpc_id d ≡ dispatch_unlocked rpc_id sid a ws_rpc_id job d₁)
      ⊎ (admit rpc_id m sid limit p now ws_rpc_id d ≡ dispatch rpc_id sid a now job d₁)
unfolding admit
admit-cases rpc_id ws_rpc_id sid m limit now p d a e =
    elim (Method-discrete m Method.tool_record_stop) [
      | yes same ↦ inl (ground arith)
      | no other ↦ inr (ground arith)
    ]

-- A call is answered before it is registered, and may have consumed a mark, or it is admitted.
pub record Course (rpc_id ws_rpc_id : String) (m : Method) (p : ToolParams) (now : ℕ) (d : Daemon)
    (result : Daemon × Admission) : Type 0 where
  pub marks : Interrupts
  pub consumed_by_gate : requires_interrupt_gate m ≡ false → marks ≡ d.session_interrupts
  pub end :
      ((body : ResponseBody) × (result ≡ (record d { session_interrupts = marks }, replied body)))
      ⊎ ((sid : String) × (limit : ℕ) × (result
            ≡ admit rpc_id m sid limit p now ws_rpc_id (record d { session_interrupts = marks })))

timed-Course :
    (rpc_id ws_rpc_id sid : String) (m : Method) (p : ToolParams) (now : ℕ) (d : Daemon)
    (marks : Interrupts)
    → (requires_interrupt_gate m ≡ false → marks ≡ d.session_interrupts)
    → Course rpc_id ws_rpc_id m p now d
        (timed rpc_id m sid p now ws_rpc_id (record d { session_interrupts = marks }))
unfolding timed fail
timed-Course rpc_id ws_rpc_id sid m p now d marks h = elim (timeout-cases p.timeout_ms) [
  | inl (limit, e) ↦ record {
    marks = marks;
    consumed_by_gate = h;
    end = inr (sid, limit, ground arith);
  }
  | inr (x, e) ↦ record {
    marks = marks;
    consumed_by_gate = h;
    end = inl (ResponseBody.err x, ground arith);
  }
]

gated-Course :
    (rpc_id ws_rpc_id sid : String) (m : Method) (p : ToolParams) (now : ℕ) (d : Daemon)
    → Course rpc_id ws_rpc_id m p now d (gated rpc_id m sid p now ws_rpc_id d)
unfolding gated fail
gated-Course rpc_id ws_rpc_id sid m p now d = elim (Bool-cases (requires_interrupt_gate m)) [
  | inl gate ↦
      let marks = (try_consume sid d.session_interrupts).0 in
      elim (Bool-cases (try_consume sid d.session_interrupts).1) [
        | inl pending ↦ record {
          marks = marks;
          consumed_by_gate = λ e. absurd (ground arith);
          end = inl (ResponseBody.err aborted, ground arith);
        }
        | inr clear ↦
            rw (gate, clear)
              (timed-Course rpc_id ws_rpc_id sid m p now d marks (λ e. absurd (ground arith)))
      ]
  | inr passive ↦
      rw passive (timed-Course rpc_id ws_rpc_id sid m p now d d.session_interrupts (λ e. refl))
]

pub begin_tool_dispatch-Course :
    (help_disabled : Bool) (rpc_id ws_rpc_id : String) (m : Method) (p : ToolParams) (now : ℕ)
    (d : Daemon)
    → Course rpc_id ws_rpc_id m p now d
        (begin_tool_dispatch help_disabled rpc_id m p now ws_rpc_id d)
unfolding begin_tool_dispatch fail
begin_tool_dispatch-Course help_disabled rpc_id ws_rpc_id m p now d =
    elim (Bool-cases (ite (Method-discrete m Method.tool_request_help) help_disabled false)) [
      | inl disabled ↦ record {
        marks = d.session_interrupts;
        consumed_by_gate = λ e. refl;
        end = inl (ResponseBody.ok p.help_disabled_result, ground arith);
      }
      | inr enabled ↦ elim (Option-cases (named_session p.session_id)) [
        | inl unnamed ↦ record {
          marks = d.session_interrupts;
          consumed_by_gate = λ e. refl;
          end =
              inl (
                ResponseBody.err (invalid "tool.* RPC requires non-empty session_id"),
                ground arith,
              );
        }
        | inr (sid, named) ↦ rw (enabled, named) (gated-Course rpc_id ws_rpc_id sid m p now d)
      ]
    ]
