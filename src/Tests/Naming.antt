-- ===== src/Tests/Naming.antt =====
-- An enum with an alias, and an event whose message has another name than the aggregate's.
use Prim.Native.Nat.{Ordering, compare}
use Prim.Native.Char.{Char, code}
use protosource.Prelude.{◌≡◌, refl, false, ◌&&◌, List, [], ◌∷◌, leb}
use protosource.Generator.Enums.{ProtoEnum, Letters, build_enum_display, split_underscore}
use protosource.Generator.Enums.Labels.{IsLabelled, build_enum_display-IsLabelled}

-- The letters of four words.
abbrev lower_letters : List (Char × Char)
lower_letters =
    ("L", "l")
    ∷ ("O", "o")
    ∷ ("G", "g")
    ∷ ("E", "e")
    ∷ ("V", "v")
    ∷ ("W", "w")
    ∷ ("H", "h")
    ∷ ("I", "i")
    ∷ []

abbrev lowered : List (Char × Char) → Char → Char
lowered [] c = c
lowered ((up, low) ∷ pairs) c = elim (compare (code up) (code c)) [
  | Ordering.eq ↦ low
  | _ ↦ lowered pairs c
]

abbrev raised : List (Char × Char) → Char → Char
raised [] c = c
raised ((up, low) ∷ pairs) c = elim (compare (code low) (code c)) [
  | Ordering.eq ↦ up
  | _ ↦ raised pairs c
]

abbrev ascii : Letters
ascii = record {
  is_upper = λ c. leb b'A' (code c) && leb (code c) b'Z';
  is_lower = λ c. leb b'a' (code c) && leb (code c) b'z';
  is_digit = λ c. leb b'0' (code c) && leb (code c) b'9';
  to_upper = raised lower_letters;
  to_lower = lowered lower_letters;
}

abbrev log_level : ProtoEnum
log_level = record {
  name = "LogLevel";
  go_name = "LogLevel";
  display_names_disabled = false;
  values =
      record { name = "LOG_LEVEL_LOW"; go_name = "LogLevel_LOG_LEVEL_LOW"; number = 0 }
      ∷ record { name = "LOG_LEVEL_LOWEST"; go_name = "LogLevel_LOG_LEVEL_LOWEST"; number = 0 }
      ∷ record { name = "LOG_LEVEL_HIGH"; go_name = "LogLevel_LOG_LEVEL_HIGH"; number = 1 }
      ∷ [];
}

log_level_displayed : build_enum_display ascii log_level ≡ record {
  go_type_name = "LogLevel";
  values =
      record { go_name = "LogLevel_LOG_LEVEL_LOW"; display = "Low" }
      ∷ record { go_name = "LogLevel_LOG_LEVEL_HIGH"; display = "High" }
      ∷ [];
}
unfolding build_enum_display split_underscore
log_level_displayed = refl

build_enum_display-IsLabelled_example :
    IsLabelled log_level.values (build_enum_display ascii log_level).values
build_enum_display-IsLabelled_example = build_enum_display-IsLabelled ascii log_level
