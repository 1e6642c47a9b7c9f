-- ===== src/Core/Language.antt =====
-- crates/ovecc-core/src/lang.rs: languages by file extension.
use ovecc.Prelude.{
  Bool, true, false, Option, none, some, List, [], ◌∷◌, if◌then◌else◌, contains, list_eq, nat_eq,
}
use ovecc.Text.{Text, codes, lower}

pub data SourceLanguage : Type 0 where
  java_script jsx type_script tsx python rust go cpp sql : SourceLanguage

abbrev extensions : SourceLanguage → List Text
extensions java_script = codes "js" ∷ codes "mjs" ∷ codes "cjs" ∷ []
extensions jsx = codes "jsx" ∷ []
extensions type_script = codes "ts" ∷ codes "mts" ∷ codes "cts" ∷ []
extensions tsx = codes "tsx" ∷ []
extensions python = codes "py" ∷ codes "pyi" ∷ []
extensions rust = codes "rs" ∷ []
extensions go = codes "go" ∷ []
extensions cpp =
    codes "cpp"
    ∷ codes "cc"
    ∷ codes "cxx"
    ∷ codes "c++"
    ∷ codes "hpp"
    ∷ codes "hh"
    ∷ codes "hxx"
    ∷ codes "h++"
    ∷ codes "h"
    ∷ codes "c"
    ∷ codes "cu"
    ∷ codes "cuh"
    ∷ []
extensions sql = codes "sql" ∷ []

-- The first language of a list that has the extension: the arms of the `match`, in order.
first_arm : Text → List SourceLanguage → Option SourceLanguage
first_arm e [] = none
first_arm e (l ∷ ls) = if contains e (extensions l) then some l else first_arm e ls

abbrev languages : List SourceLanguage
languages = java_script ∷ jsx ∷ type_script ∷ tsx ∷ python ∷ rust ∷ go ∷ cpp ∷ sql ∷ []

unfoldable pub from_extension : Text → Option SourceLanguage
unfolding first_arm
from_extension extension = first_arm (lower extension) languages

unfoldable pub as_str : SourceLanguage → Text
as_str java_script = codes "javascript"
as_str jsx = codes "jsx"
as_str type_script = codes "typescript"
as_str tsx = codes "tsx"
as_str python = codes "python"
as_str rust = codes "rust"
as_str go = codes "go"
as_str cpp = codes "cpp"
as_str sql = codes "sql"

unfoldable pub is_js_family : SourceLanguage → Bool
is_js_family java_script = true
is_js_family jsx = true
is_js_family type_script = true
is_js_family tsx = true
is_js_family _ = false
