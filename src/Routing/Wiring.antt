-- ===== src/Routing/Wiring.antt =====
-- `create_engine` of src/lifeman/routing/engine.py: the handlers of a domain are the built-in ones
-- and, under names that are not taken, those that are backed by tools.
use life_man.Base.{
  Bool, Bool-cases, List, Option, String, [], arith, elem, eq_iff, if◌then◌else◌, inl, inr, nat_eq,
  refl, string_eq, sym, true, ◌++◌, ◌==◌, ◌||◌, ◌∙◌, ◌∷◌, ◌≡◌,
}
use life_man.Json.{Fields}
use life_man.Routing.{HandlerManifest, Handlers, RoutedEvent, handler_names}

-- The loop of `_list_handlers` over the tools, `seen` being the names so far.
abbrev pub add_tools : List String → List HandlerManifest → List HandlerManifest
add_tools seen [] = []
add_tools seen (t ∷ ts) =
    let skipped = add_tools seen ts in
    let added = add_tools (t.name ∷ seen) ts in if elem t.name seen then skipped else t ∷ added

unfoldable pub list_handlers : List HandlerManifest → List HandlerManifest → List HandlerManifest
list_handlers builtins tools = builtins ++ add_tools (handler_names builtins) tools

-- `_resolve_handler` finds a handler.
unfoldable pub resolve_handler : List HandlerManifest → List HandlerManifest → String → Bool
resolve_handler builtins tools name =
    elem name (handler_names builtins) || elem name (handler_names tools)

elem-append :
    (name : String) (l m : List HandlerManifest)
    → elem name (handler_names (l ++ m))
      ≡ elem name (handler_names l) || elem name (handler_names m)
elem-append name [] m = refl
elem-append name (x ∷ l) m = ground (arith, elem-append name l m)

elem-add_tools :
    (name : String) (seen : List String) (tools : List HandlerManifest)
    → elem name seen || elem name (handler_names (add_tools seen tools))
      ≡ elem name seen || elem name (handler_names tools)
elem-add_tools name seen [] = refl
elem-add_tools name seen (t ∷ ts) = elim (Bool-cases (elem t.name seen)) [
  | inl e ↦ rw e (elim (Bool-cases (t.name == name)) [
    | inl k ↦
        let same : t.name ≡ name = (eq_iff t.name name).0 k in
        let there : elem name seen ≡ true = rw same at e in rw there refl
    | inr k ↦ rw k (elem-add_tools name seen ts)
  ])
  | inr e ↦ rw e (ground (arith, elem-add_tools name (t.name ∷ seen) ts))
]

-- A name resolves to a handler exactly when a handler of that name is listed to the router, also where
-- a tool has the name of a built-in handler or two tools have one name.
pub resolve_handler-listed :
    (builtins tools : List HandlerManifest) (name : String)
    → resolve_handler builtins tools name ≡ elem name (handler_names (list_handlers builtins tools))
unfolding resolve_handler list_handlers
resolve_handler-listed builtins tools name = sym (
    elem-append name builtins (add_tools (handler_names builtins) tools)
    ∙ elem-add_tools name (handler_names builtins) tools)

-- The handlers of a domain as `create_engine` wires them: what is listed to the router is what a name
-- resolves to.
abbrev pub create_engine :
    {S : Type 0} (builtins tools : List HandlerManifest)
    → (String → String → RoutedEvent → S → Option Fields × S)
    → Handlers S
create_engine builtins tools invoke = record {
  listed = list_handlers builtins tools;
  resolves = resolve_handler builtins tools;
  invoke = invoke;
  resolves-listed = resolve_handler-listed builtins tools;
}
