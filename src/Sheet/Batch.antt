-- ===== src/Sheet/Batch.antt =====
-- What `sheetSetCellCommands` of internal/app/server.go makes of a batch.
use mathlib.Core.Path.{subst}
use chat2work_mcp.Prelude.{
  ℕ, ◌+◌, ◌≤◌, ◌<◌, ◌≡◌, ◌≢◌, refl, sym, ap, ◌∙◌, inl, inr, true, false, Option, none, some, List,
  [], ◌∷◌, ◌++◌, arith, Bool-cases, length, All, Text, codes, same, same_iff, same_refl, equal_fold,
  ok, Result-cases,
}
use chat2work_mcp.Prelude.Map.{text_key, lookup, lookup-insert}
use chat2work_mcp.Sheet.{
  SheetSetCell, Command, normalize_cell_address, has_value_key, with_value, contains, cell_command,
  cell_commands, sheet_set_cell_commands, max_sheet_set_cells,
}
use chat2work_mcp.Sheet.Address.{IsCell, normalize-IsCell}

-- the path of a cell of a worksheet
abbrev pub cell_path : Text → Text → Text
cell_path sheet address = codes "/" ++ (sheet ++ (codes "/" ++ address))

append_cancel : (s a b : Text) → s ++ a ≡ s ++ b → a ≡ b
append_cancel [] a b e = e
append_cancel (c ∷ s) a b e = append_cancel s a b (cc)

cell_path-injective : (sheet a b : Text) → cell_path sheet a ≡ cell_path sheet b → a ≡ b
cell_path-injective sheet a b e =
    let front : sheet ++ (codes "/" ++ a) ≡ sheet ++ (codes "/" ++ b) = cc in
    let back = append_cancel sheet (codes "/" ++ a) (codes "/" ++ b) front in cc

-- The command sets the cell: its path is that of the cell's normalized address, its property "value"
-- is the cell's value, and its other properties are the cell's.
pub record Sets (sheet : Text) (cell : SheetSetCell) (command : Command) : Type 0 where
  pub address : Text
  pub normal : normalize_cell_address cell.address ≡ ok address
  pub path : command.path ≡ cell_path sheet address
  pub value : lookup (codes "value") command.props ≡ cell.value
  pub others : (key : Text) → key ≢ codes "value" → lookup key command.props ≡ lookup key cell.props

equal_fold_refl : (s : Text) → equal_fold s s ≡ true
unfolding equal_fold
equal_fold_refl [] = refl
equal_fold_refl (c ∷ s) = ground (arith, equal_fold_refl s)

no_value_key :
    (props : List (Text × Text)) → has_value_key props ≡ false → lookup (codes "value") props ≡ none
unfolding has_value_key lookup
no_value_key [] h = refl
no_value_key ((key, v) ∷ props) h = elim (Bool-cases (same key (codes "value"))) [
  | inl e ↦ absurd (
      ground (
        arith,
        (same_iff key (codes "value")).0 e,
        equal_fold_refl (codes "value"),
        ap (λ (k : Text). equal_fold k (codes "value")) ((same_iff key (codes "value")).0 e),
      ))
  | inr e ↦ rw e (no_value_key props (ground arith))
]

with_value-value :
    (value : Option Text) (props : List (Text × Text))
    → has_value_key props ≡ false
    → lookup (codes "value") (with_value value props) ≡ value
with_value-value none props h = no_value_key props h
with_value-value (some v) props h =
    ground (arith, lookup-insert (codes "value") (codes "value") v props, same_refl (codes "value"))

with_value-other :
    (value : Option Text) (props : List (Text × Text)) (key : Text)
    → key ≢ codes "value"
    → lookup key (with_value value props) ≡ lookup key props
with_value-other none props key ne = refl
with_value-other (some v) props key ne =
    ground (arith, lookup-insert (codes "value") key v props, same_iff (codes "value") key)

cell_command-Sets :
    (sheet : Text) (i : ℕ) (seen : List Text) (cell : SheetSetCell) (address : Text)
    (command : Command)
    → cell_command sheet i seen cell ≡ ok (address, command)
    → (contains address seen ≡ false)
      × Sets sheet cell command
      × (command.path ≡ cell_path sheet address)
      × IsCell address
unfolding cell_command
cell_command-Sets sheet i seen cell address command h =
    elim (Result-cases (normalize_cell_address cell.address)) [
      | inr (e, bad) ↦ absurd (ground (arith, bad))
      | inl (a, good) ↦
          let same_address : a ≡ address = ground (arith, good) in
          let no_value : has_value_key cell.props ≡ false = ground (arith, good) in
          let props : command.props ≡ with_value cell.value cell.props = ground (arith, good) in
          let path : command.path ≡ cell_path sheet address = ground (arith, good) in
          (
            ground (arith, good),
            record {
              address = address;
              normal = good ∙ ap ok same_address;
              path = path;
              value =
                  ap (lookup (codes "value")) props
                  ∙ with_value-value cell.value cell.props no_value;
              others =
                  λ key ne. ap (lookup key) props ∙ with_value-other cell.value cell.props key ne;
            },
            path,
            normalize-IsCell cell.address address (good ∙ ap ok same_address),
          )
    ]

-- The cells and the commands, one for one.
abbrev pub SetsAll : Text → List SheetSetCell → List Command → Type 0
SetsAll sheet [] [] = Unit
SetsAll sheet (cell ∷ cells) (command ∷ commands) =
    Sets sheet cell command × SetsAll sheet cells commands
SetsAll sheet _ _ = ⊥

-- Not the path of any of the commands.
abbrev pub IsFresh : Text → List Command → Type 0
IsFresh path = All (λ c. c.path ≢ path)

-- No two commands have the same path.
abbrev pub Distinct : List Command → Type 0
Distinct [] = Unit
Distinct (command ∷ commands) = IsFresh command.path commands × Distinct commands

-- The commands have paths of addresses that are not among those seen.
abbrev Unseen : Text → List Text → List Command → Type 0
Unseen sheet seen =
    All
      (λ c. (address : Text) × (c.path ≡ cell_path sheet address) × (contains address seen ≡ false))

Unseen-IsFresh :
    (sheet address : Text) (seen : List Text) (commands : List Command)
    → Unseen sheet (address ∷ seen) commands
    → IsFresh (cell_path sheet address) commands × Unseen sheet seen commands
Unseen-IsFresh sheet address seen [] h = (tt, tt)
Unseen-IsFresh sheet address seen (c ∷ commands) ((a, path, new), h) =
    let (fresh, rest) = Unseen-IsFresh sheet address seen commands h in
    (
      (
        λ e. ground (arith, same_iff address a, cell_path-injective sheet a address (sym path ∙ e)),
        fresh,
      ),
      ((a, path, ground arith), rest),
    )

cell_commands-Sets :
    (sheet : Text) (i : ℕ) (seen : List Text) (cells : List SheetSetCell) (commands : List Command)
    → cell_commands sheet i seen cells ≡ ok commands
    → SetsAll sheet cells commands × Unseen sheet seen commands × Distinct commands
unfolding cell_commands
cell_commands-Sets sheet i seen [] [] h = (tt, tt, tt)
cell_commands-Sets sheet i seen [] (c ∷ commands) h = cc
cell_commands-Sets sheet i seen (cell ∷ cells) commands h =
    elim (Result-cases (cell_command sheet i seen cell)) [
      | inr (e, bad) ↦ absurd (ground (arith, bad))
      | inl ((address, command), good) ↦
          elim (Result-cases (cell_commands sheet (i + 1) (address ∷ seen) cells)) [
            | inr (e, bad) ↦ absurd (ground (arith, good, bad))
            | inl (rest, fine) ↦
                let (new, sets, path, _) =
                  cell_command-Sets sheet i seen cell address command good in
                let (all, unseen, distinct) =
                  cell_commands-Sets sheet (i + 1) (address ∷ seen) cells rest fine in
                let (fresh, unseen') = Unseen-IsFresh sheet address seen rest unseen in
                let whole : command ∷ rest ≡ commands = ground (arith, good, fine) in
                subst (λ cs. SetsAll sheet (cell ∷ cells) cs × Unseen sheet seen cs × Distinct cs)
                  whole ((sets, all), ((address, path, new), unseen'), (rw path fresh, distinct))
          ]
    ]

-- A batch that is accepted has from one to a thousand cells and becomes one command for each cell,
-- in order, that sets this cell and no other property of it; no two commands have the same path.
pub sheet_set_cell_commands-Sets :
    (sheet : Text) (cells : List SheetSetCell) (commands : List Command)
    → sheet_set_cell_commands sheet cells ≡ ok commands
    → (0 < length cells)
      × (length cells ≤ max_sheet_set_cells)
      × SetsAll sheet cells commands
      × Distinct commands
unfolding sheet_set_cell_commands
sheet_set_cell_commands-Sets sheet [] commands h = absurd (ground (arith, h))
sheet_set_cell_commands-Sets sheet (cell ∷ cells) commands h =
    let (all, _, distinct) = cell_commands-Sets sheet 0 [] (cell ∷ cells) commands (ground arith) in
    (omega arith, ground arith, all, distinct)
