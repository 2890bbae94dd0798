-- ===== src/Tools/Registry.antt =====
-- tools/registry.py: ToolRegistry, the dict of the tools by name.
use trip_graph_agent_runtime.Prelude.{
  ◌≡◌, refl, ap, ◌∙◌, String, Bool, true, false, Option, none, some, List, [], ◌∷◌, ◌++◌, map,
  str_eq, eq_iff, if◌then◌else◌, arith,
}
use trip_graph_agent_runtime.Errors.{Result, ok, raise, value_error, ◌>>=◌}
use trip_graph_agent_runtime.Tools.{Tool}

abbrev pub ToolTable : Type 0 → Type 0 → Type 0
ToolTable Json World = List (String × Tool Json World)

module _ {Json World : Type 0} where
  -- self._tools[name], or nothing where it raises KeyError
  unfoldable pub get : String → ToolTable Json World → Option (Tool Json World)
  get name [] = none
  get name ((key, tool) ∷ tools) = if str_eq key name then some tool else get name tools

  -- name in self._tools
  unfoldable pub has : String → ToolTable Json World → Bool
  unfolding get
  has name tools = elim (get name tools) [ none ↦ false | some _ ↦ true ]

  pub register : Tool Json World → ToolTable Json World → Result (ToolTable Json World)
  unfolding has
  register tool tools =
      if has tool.name tools
      then raise (value_error tool.name)
      else ok (tools ++ ((tool.name, tool) ∷ []))

  unfoldable register_many :
      List (Tool Json World) → ToolTable Json World → Result (ToolTable Json World)
  unfolding register
  register_many [] tools = ok tools
  register_many (tool ∷ rest) tools = register tool tools >>= λ added. register_many rest added

  -- list_names, before it is sorted
  unfoldable pub names : ToolTable Json World → List String
  names tools = map (λ p. p.0) tools

  get-snoc :
      (tools : ToolTable Json World) (tool : Tool Json World) (name : String)
      → get name (tools ++ ((tool.name, tool) ∷ [])) ≡ (
          if has name tools
          then get name tools
          else if str_eq tool.name name
          then some tool
          else none)
  unfolding get has
  get-snoc [] tool name = refl
  get-snoc ((key, t) ∷ tools) tool name = ground (arith, get-snoc tools tool name)

  has-else :
      (name : String) (tools : ToolTable Json World)
      → (if has name tools then get name tools else none) ≡ get name tools
  unfolding has
  has-else name tools = ground arith

  -- register on a new name succeeds; the tool is then found under its name, and what other names find
  -- is what they found. On a name that is taken it raises ValueError.
  pub register-get :
      (tool : Tool Json World) (tools : ToolTable Json World)
      → (has tool.name tools ≡ true → register tool tools ≡ raise (value_error tool.name))
        × (has tool.name tools ≡ false
            → (added : ToolTable Json World) × (register tool tools ≡ ok added)
              × (get tool.name added ≡ some tool)
              × ((name : String) → str_eq tool.name name ≡ false → get name added ≡ get name tools))
  unfolding register
  register-get tool tools = (
    λ taken. rw taken refl,
    λ new. (
      tools ++ ((tool.name, tool) ∷ []),
      rw new refl,
      get-snoc tools tool tool.name
          ∙ rw (new, if◌then◌else◌)
              (ap (λ b. if b then some tool else none) ((eq_iff tool.name tool.name).1 refl)),
      λ name other. get-snoc tools tool name ∙ rw other (has-else name tools),
    ),
  )
