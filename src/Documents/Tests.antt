-- ===== src/Documents/Tests.antt =====
-- The document tools on a disk in memory, with an engine that writes the text "made".
use chat2work_mcp.Prelude.{
  ◌≡◌, refl, true, false, none, some, List, [], ◌∷◌, ◌++◌, arith, Text, codes, same, split,
  has_prefix, Result, ok,
}
use chat2work_mcp.Prelude.Int.{pos}
use chat2work_mcp.Prelude.Decimal.{decimal}
use chat2work_mcp.Prelude.Map.{lookup, insert}
use chat2work_mcp.Config.Sample.{team_grant}
use chat2work_mcp.Access.{add_member, add_members, new_access_manager, grant, can_write}
use chat2work_mcp.Server.{app_grant}
use chat2work_mcp.Paths.{AbsPath, clean, clean_steps, clean_step, join}
use chat2work_mcp.Paths.Missing.{parts_of}
use chat2work_mcp.Disk.{Bytes}
use chat2work_mcp.Disk.Steps.{After}
use chat2work_mcp.Disk.Memory.{Disk, memory, content, inserted, found, path_key}
use chat2work_mcp.Disk.Memory.Laws.{memory-IsLawful, all-IsDirect}
use chat2work_mcp.Files.{slashed}
use chat2work_mcp.Tools.Sample.{app, request, f, team_root}
use chat2work_mcp.Tools.{clean_path}
use chat2work_mcp.Office.{ext, ext_from}
use chat2work_mcp.Sheet.{SheetSetCell}
use chat2work_mcp.Documents.{
  Engine, DocEditInput, SheetSetCellsInput, DocCreateInput, temp_document_path, temp_abs,
  doc_create,
}
use chat2work_mcp.Documents.Copying.{IsTame}
use chat2work_mcp.Documents.Creating.{IsApart, Created, doc_create-Created}

abbrev execute_on : AbsPath → List Bytes → Disk → Result Text × Disk
execute_on root (verb ∷ rel_path ∷ rest) d =
    (ok (codes "done"), insert (join root (split b'/' rel_path)) (codes "made") d)
execute_on root _ d = (ok [], d)

abbrev engine : Engine Disk
engine = record {
  execute = execute_on;
  archive = λ d p. none;
  valid_json = λ raw. true;
  marshal = λ commands. ok (codes "[]");
}

tame : IsTame memory content engine
tame = record {
  touches = λ d root t verb rel_path rest e direct.
      rw e (inserted (join root (split b'/' rel_path)) (codes "made") d);
  regular = λ d root t verb rel_path rest info e h.
      rw e (codes "made", found (join root (split b'/' rel_path)) (codes "made") d);
}

abbrev root : AbsPath
root = codes "d" ∷ codes "team" ∷ []

abbrev disk : Disk
disk = (root ++ codes "a.xlsx" ∷ [], codes "old") ∷ []

granted_team : app_grant app (pos 0) request (codes "team") true false ≡ ok team_grant
unfolding app_grant grant new_access_manager add_members add_member lookup insert same decimal
    can_write
granted_team = refl

abbrev edit_input : DocEditInput
edit_input = record { workspace = codes "team"; path = codes "a.xlsx"; ops = codes "[]" }

abbrev cell : SheetSetCell
cell = record { address = codes "B2"; value = some (codes "1"); props = [] }

abbrev cells_input : SheetSetCellsInput
cells_input = record {
  workspace = codes "team";
  path = codes "a.xlsx";
  sheet = codes "S";
  cells = cell ∷ [];
}

abbrev create_input : DocCreateInput
create_input = record {
  workspace = codes "team";
  path = codes "b.xlsx";
  kind = codes "xlsx";
  overwrite = false;
  ops = [];
}

create_at : temp_abs root 5 (codes "b.xlsx") ≡ root ++ codes "b.chat2work-5.xlsx" ∷ []
unfolding temp_abs temp_document_path clean_path slashed clean clean_steps clean_step split same
    has_prefix join ext ext_from decimal
create_at = refl

parts_b : parts_of (codes "b.xlsx") ≡ [] ++ codes "b.xlsx" ∷ []
unfolding clean clean_steps clean_step split same has_prefix
parts_b = refl

apart : IsApart memory ((root ++ []) ++ codes "b.xlsx" ∷ []) (temp_abs root 5 (codes "b.xlsx")) disk
apart = record {
  dir = root;
  name = codes "b.chat2work-5.xlsx";
  at = create_at;
  direct = all-IsDirect disk (temp_abs root 5 (codes "b.xlsx"));
  apart = rw create_at (λ e. cc);
}

doc_create-Created_example :
    After (doc_create memory 9 f engine app (pos 0) request 5 create_input disk) (
      Created memory content memory-IsLawful 9 f engine app tame
        (pos 0)
        request
        5
        (temp_abs root 5 (codes "b.xlsx"))
        ((root ++ []) ++ codes "b.xlsx" ∷ [])
        false
        disk)
unfolding clean clean_steps clean_step split same has_prefix
doc_create-Created_example =
    doc_create-Created memory content memory-IsLawful 9 f engine app tame (pos 0) request 5
      create_input team_grant root [] (codes "b.xlsx") disk granted_team team_root
      (all-IsDirect disk root) parts_b (omega arith) apart
