-- ===== src/Tools/Lifecycle.antt =====
-- The life of an invocation: how the row of a call ends.
use life_man.Base.{
  Bool-cases, Option, String, ap, arith, eq_iff, false, first, first-append, inl, inr, is_some,
  nat_eq, none, refl, some, string_eq, ℕ, ◌==◌, ◌∙◌, ◌≡◌,
}
use life_man.Json.{Fields, Value, arr, bool, null, num, obj, str}
use life_man.Tools.{
  Invocation, Manifest, Python, Tool, ToolStore, has_name, is_invocation, latest_manifest,
}
use life_man.Tools.Calls.{
  Call, Params, Ran, invocation_id, load_tool_and_manifest, params_of, validate_args,
}
use life_man.Tools.Rows.{new_invocation, start_invocation_row}
use life_man.Tools.Execution.{auto_emits, conclude, execute_tool, run_in_sandbox, storable}
use life_man.Tools.Ended.{Ended}

module _ (py : Python) (run : Params → Call → ToolStore → Ran × ToolStore)
    (completion : Call → Fields → ToolStore → ToolStore) where
  called_run :
      (fresh : String) (existing : Option String) (c : Call) (now later : ℕ) (s : ToolStore)
      (t : Tool)
      → first (has_name c.tool) s.tools ≡ some t
      → validate_args py c.args (params_of py t (latest_manifest t.id s.manifests)).schema_input
        ≡ none
      → let id = invocation_id existing fresh in
        execute_tool py run completion fresh existing c now later s
        ≡ conclude py run completion id c later (
            run_in_sandbox py run completion
              (params_of py t (latest_manifest t.id s.manifests))
              c
              (start_invocation_row py id (is_some existing) c now s))
  unfolding execute_tool load_tool_and_manifest
  called_run fresh existing c now later s t found k = ground arith

  raises_on :
      (v : Value) (id : String) (c : Call) (later : ℕ) (ran : Ran) (s : ToolStore)
      → ((fs : Fields) (u : ToolStore) → completion c fs u ≡ u)
      → ran.result ≡ v
      → storable v ≡ none
      → conclude py run completion id c later (ran, s) ≡ (none, s)
  unfolding conclude
  raises_on (obj fs) id c later ran s quiet e odd =
      elim (Bool-cases (auto_emits c ran.outputs_emitted fs)) [
        | inl k ↦ rw e (rw odd (rw k (rw (quiet fs s) refl)))
        | inr k ↦ rw e (rw odd (rw k refl))
      ]
  raises_on null id c later ran s quiet e odd = rw e refl
  raises_on (bool b) id c later ran s quiet e odd = rw e refl
  raises_on (num n) id c later ran s quiet e odd = rw e refl
  raises_on (str t) id c later ran s quiet e odd = rw e refl
  raises_on (arr vs) id c later ran s quiet e odd = rw e refl

  ran_code :
      (p : Params) (c : Call) (s : ToolStore) (f : String × String)
      → first (λ (g : String × String). g.0 == p.tool_row.id) s.code_on_disk ≡ some f
      → run_in_sandbox py run completion p c s ≡ run p c s
  unfolding run_in_sandbox
  ran_code p c s f e = rw e refl

  params_tool : (t : Tool) (m : Option Manifest) → (params_of py t m).tool_row ≡ t
  params_tool t none = refl
  params_tool t (some m) = refl

  -- A tool that prints something that is no dict, or a dict whose error is a dict, a list or an integer beyond
  -- 64 bits, raises in the
  -- call that it was run by, and its invocation stays as it was started: running, with no end. This is so
  -- for a call that starts its own row, where neither the run nor the completion touches the tables.
  pub odd_result_left_running :
      (fresh : String) (c : Call) (now later : ℕ) (s : ToolStore) (t : Tool) (f : String × String)
      → first (has_name c.tool) s.tools ≡ some t
      → first (is_invocation fresh) s.invocations ≡ none
      → validate_args py c.args (params_of py t (latest_manifest t.id s.manifests)).schema_input
        ≡ none
      → first (λ (g : String × String). g.0 == t.id) s.code_on_disk ≡ some f
      → ((q : Params) (u : ToolStore) → (run q c u).1 ≡ u)
      → ((fs : Fields) (u : ToolStore) → completion c fs u ≡ u)
      → ((q : Params) (u : ToolStore) → storable (run q c u).0.result ≡ none)
      → let (answered, s') = execute_tool py run completion fresh none c now later s in
        (r : Invocation) × (answered ≡ none)
        × (first (is_invocation fresh) s'.invocations ≡ some r)
        × (r.status ≡ "running")
        × (r.finished_at ≡ none)
  odd_result_left_running fresh c now later s t f found free checks code quiet quiet' odd =
      let p = params_of py t (latest_manifest t.id s.manifests) in
      let s1 = start_invocation_row py fresh false c now s in
      let on_disk : first (λ (g : String × String). g.0 == p.tool_row.id) s1.code_on_disk ≡ some f =
        rw (params_tool t (latest_manifest t.id s.manifests))
          (unfold start_invocation_row in code) in
      let same : execute_tool py run completion fresh none c now later s ≡ (none, (run p c s1).1) =
        called_run fresh none c now later s t found checks
        ∙ (ap (conclude py run completion fresh c later) (ran_code p c s1 f on_disk)
            ∙ raises_on (run p c s1).0.result fresh c later (run p c s1).0 (run p c s1).1 quiet'
                refl (odd p s1)) in
      (
        new_invocation fresh c c.schedule_id "running" now,
        rw same refl,
        rw same (
            rw (quiet p s1) (
              unfold start_invocation_row in
              first-append (is_invocation fresh) s.invocations
                (new_invocation fresh c c.schedule_id "running" now) free
                (ground (arith, eq_iff fresh fresh)))),
        refl,
        refl,
      )
