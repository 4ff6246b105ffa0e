-- ===== src/TaskRun/Disposal.antt =====
-- TaskRun.Dispose calls what it has to call, once and in order, and tells of every failure.
use mathlib.Core.List.{map-append}
use taskcluster_worker.Prelude.{
  ℕ, ◌≡◌, ap, ◌∙◌, Bool, true, false, List, [], ◌∷◌, ◌++◌, map, Option, none, some, arith,
  if◌then◌else◌, ◌&&◌,
}
use taskcluster_worker.Errors.{sandbox_terminated, ExceptionReason}
use taskcluster_worker.TaskRun.State.{TaskRun}
use taskcluster_worker.TaskRun.Stages.{returns, panics}
use taskcluster_worker.TaskRun.Frame.{is_some}
use taskcluster_worker.TaskRun.Dispose.{
  Teardown, Action, closes_log, removes_log, runs_exception_hook, disposes_plugin, discards_builder,
  aborts_sandbox, disposes_result, Event, Phase, ◌>>◌, close_context, run_exception_hook,
  release_plugin, release_builder, release_sandbox, release_result, release_context, phases,
  dispose,
}

-- What a run holds, and whether the plugins are to hear of an exception.
pub record Held : Type 0 where
  pub context : Bool
  pub plugin : Option ℕ
  pub builder : Option ℕ
  pub sandbox : Option ℕ
  pub result : Option ℕ
  pub exception : Bool
  pub reason : ExceptionReason

abbrev pub held : TaskRun → Held
held t = record {
  context = is_some t.controller;
  plugin = t.task_plugin;
  builder = t.sandbox_builder;
  sandbox = t.sandbox;
  result = t.result_set;
  exception = t.exception;
  reason = t.reason;
}

abbrev pub actions : List Event → List Action
actions = map (λ e. e.action)

-- A phase turns what is held and makes calls as two functions of what is held say.
abbrev Acts : Phase → (Held → Held) → (Held → List Action) → Type 0
Acts p next acts =
    (t : TaskRun) → (held (p t).0 ≡ next (held t)) × (actions (p t).1 ≡ acts (held t))

-- A phase with two such functions.
record Law (p : Phase) : Type 0 where
  next : Held → Held
  acts : Held → List Action
  holds : Acts p next acts

Acts-then :
    (p q : Phase) (m n : Held → Held) (a b : Held → List Action)
    → Acts p m a
    → Acts q n b
    → Acts (p >> q) (λ h. n (m h)) (λ h. a h ++ b (m h))
Acts-then p q m n a b hp hq t =
    let (s1, c1) = hp t in
    let (s2, c2) = hq (p t).0 in
    (
      s2 ∙ ap n s1,
      map-append (λ e. e.action) (p t).1 (q (p t).0).1
          ∙ ap (λ cs. cs ++ actions (q (p t).0).1) c1
          ∙ ap (λ bs. a (held t) ++ bs) (c2 ∙ ap b s1),
    )

infixl 5 ◌then◌
abbrev ◌then◌ : {p q : Phase} → Law p → Law q → Law (p >> q)
◌then◌ {p} {q} l k = record {
  next = λ h. k.next (l.next h);
  acts = λ h. l.acts h ++ k.acts (l.next h);
  holds = Acts-then p q l.next k.next l.acts k.acts l.holds k.holds;
}

abbrev when : Bool → Action → List Action
when true a = a ∷ []
when false a = []

abbrev for_held : Option ℕ → (ℕ → Action) → List Action
for_held none f = []
for_held (some h) f = f h ∷ []

-- The ResultSet that is held once the sandbox is gone.
abbrev pub result_left : Teardown → Held → Option ℕ
result_left d h = elim h.sandbox [
  | none ↦ h.result
  | some s ↦ elim d.abort_sandbox [
    | returns (some sandbox_terminated) ↦ elim h.result [
      | some r ↦ some r
      | none ↦ elim d.late_result [ returns (r, e) ↦ r | panics ↦ none ]
    ]
    | _ ↦ h.result
  ]
]

module _ (d : Teardown) where
  close_context-Acts : Acts (close_context d) (λ h. h) (λ h. when h.context closes_log)
  unfolding close_context
  close_context-Acts t = ground arith

  hook-Acts :
      Acts
        (run_exception_hook d)
        (λ h. h)
        (λ h. when (h.exception && is_some h.plugin) (runs_exception_hook h.reason))
  unfolding run_exception_hook
  hook-Acts t = ground arith

  plugin-Acts :
      Acts
        (release_plugin d)
        (λ h. record h { plugin = none })
        (λ h. for_held h.plugin disposes_plugin)
  unfolding release_plugin
  plugin-Acts t = ground arith

  builder-Acts :
      Acts
        (release_builder d)
        (λ h. record h { builder = none })
        (λ h. for_held h.builder discards_builder)
  unfolding release_builder
  builder-Acts t = ground arith

  sandbox-Acts :
      Acts
        (release_sandbox d)
        (λ h. record h { sandbox = none; result = result_left d h })
        (λ h. for_held h.sandbox aborts_sandbox)
  unfolding release_sandbox
  sandbox-Acts t = ground arith

  result-Acts :
      Acts
        (release_result d)
        (λ h. record h { result = none })
        (λ h. for_held h.result disposes_result)
  unfolding release_result
  result-Acts t = ground arith

  context-Acts :
      Acts (release_context d) (λ h. record h { context = false }) (λ h. when h.context removes_log)
  unfolding release_context
  context-Acts t = ground arith

  abbrev close_context_law : Law (close_context d)
  close_context_law = record {
    next = λ h. h;
    acts = λ h. when h.context closes_log;
    holds = close_context-Acts;
  }

  abbrev hook_law : Law (run_exception_hook d)
  hook_law = record {
    next = λ h. h;
    acts = λ h. when (h.exception && is_some h.plugin) (runs_exception_hook h.reason);
    holds = hook-Acts;
  }

  abbrev plugin_law : Law (release_plugin d)
  plugin_law = record {
    next = λ h. record h { plugin = none };
    acts = λ h. for_held h.plugin disposes_plugin;
    holds = plugin-Acts;
  }

  abbrev builder_law : Law (release_builder d)
  builder_law = record {
    next = λ h. record h { builder = none };
    acts = λ h. for_held h.builder discards_builder;
    holds = builder-Acts;
  }

  abbrev sandbox_law : Law (release_sandbox d)
  sandbox_law = record {
    next = λ h. record h { sandbox = none; result = result_left d h };
    acts = λ h. for_held h.sandbox aborts_sandbox;
    holds = sandbox-Acts;
  }

  abbrev result_law : Law (release_result d)
  result_law = record {
    next = λ h. record h { result = none };
    acts = λ h. for_held h.result disposes_result;
    holds = result-Acts;
  }

  abbrev context_law : Law (release_context d)
  context_law = record {
    next = λ h. record h { context = false };
    acts = λ h. when h.context removes_log;
    holds = context-Acts;
  }

  abbrev phases_law : Law (phases d)
  unfolding phases
  phases_law =
      close_context_law then hook_law then plugin_law then builder_law then sandbox_law
      then result_law then context_law

  -- What Dispose has to call, of a run that holds `h`.
  abbrev pub plan : Held → List Action
  plan h =
      when h.context closes_log
      ++ when (h.exception && is_some h.plugin) (runs_exception_hook h.reason)
      ++ for_held h.plugin disposes_plugin
      ++ for_held h.builder discards_builder
      ++ for_held h.sandbox aborts_sandbox
      ++ for_held (result_left d h) disposes_result
      ++ when h.context removes_log

-- Whatever fails or panics on the way, Dispose closes the log, tells the plugins of an exception,
-- disposes of the plugins, discards the sandbox builder, aborts the sandbox, disposes of the result
-- set and removes the log: each that the run holds, once and in this order, and holds nothing then.
pub dispose_releases :
    (d : Teardown) (t : TaskRun)
    → (actions (dispose d t).1 ≡ plan d (held t))
      × (held (dispose d t).0 ≡ record (held t) {
        context = false;
        plugin = none;
        builder = none;
        sandbox = none;
        result = none;
      })
unfolding dispose phases
dispose_releases d t = let (s, c) = (phases_law d).holds t in (c, s)
