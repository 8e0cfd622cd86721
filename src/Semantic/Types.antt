-- ===== src/Semantic/Types.antt =====
-- The semantic types of src/frontend/semantic.cpp (`Type` there) and the facts asked of them.
use nexc.Prelude.{
  ℕ, zero, suc, ◌-◌, ◌*◌, ◌^◌, ◌%◌, Bool, true, false, not, ◌&&◌, ◌||◌, List, [], ◌∷◌, ◌++◌, Bytes,
  codes, if◌then◌else◌, ◌==◌,
}
use nexc.Syntax.{
  BuiltinTypeKind, i8, i16, i32, i64, u8, u16, u32, u64, f32, f64, bool, str, void, invalid,
  TypeSyntax,
}
use nexc.Diagnostic.Render.{decimal}

-- A text put together from its parts.
unfoldable pub join : List Bytes → Bytes
join [] = []
join (part ∷ parts) = part ++ join parts

unfoldable pub builtin_type_name : BuiltinTypeKind → Bytes
builtin_type_name i8 = codes "i8"
builtin_type_name i16 = codes "i16"
builtin_type_name i32 = codes "i32"
builtin_type_name i64 = codes "i64"
builtin_type_name u8 = codes "u8"
builtin_type_name u16 = codes "u16"
builtin_type_name u32 = codes "u32"
builtin_type_name u64 = codes "u64"
builtin_type_name f32 = codes "f32"
builtin_type_name f64 = codes "f64"
builtin_type_name bool = codes "bool"
builtin_type_name str = codes "str"
builtin_type_name void = codes "void"
builtin_type_name invalid = codes "<invalid>"

-- The value of the enumerator, which `==` compares.
unfoldable pub kind_ordinal : BuiltinTypeKind → ℕ
kind_ordinal i8 = 0
kind_ordinal i16 = 1
kind_ordinal i32 = 2
kind_ordinal i64 = 3
kind_ordinal u8 = 4
kind_ordinal u16 = 5
kind_ordinal u32 = 6
kind_ordinal u64 = 7
kind_ordinal f32 = 8
kind_ordinal f64 = 9
kind_ordinal bool = 10
kind_ordinal str = 11
kind_ordinal void = 12
kind_ordinal invalid = 13

abbrev pub same_kind : BuiltinTypeKind → BuiltinTypeKind → Bool
same_kind a b = kind_ordinal a == kind_ordinal b

pub record SemanticType : Type 0 where
  pub kind : BuiltinTypeKind
  pub array_dimensions : List ℕ
  pub pointer_depth : ℕ

abbrev pub is_empty {ℓ} : {A : Type ℓ} → List A → Bool
is_empty [] = true
is_empty (x ∷ xs) = false

-- `Type{}`
abbrev pub no_type : SemanticType
no_type = record { kind = invalid; array_dimensions = []; pointer_depth = 0 }

abbrev pub builtin_scalar : BuiltinTypeKind → SemanticType
builtin_scalar kind = record { kind = kind; array_dimensions = []; pointer_depth = 0 }

-- A type of no dimension and no star.
abbrev pub is_scalar : SemanticType → Bool
is_scalar t = t.pointer_depth == 0 && is_empty t.array_dimensions

unfoldable pub is_invalid : SemanticType → Bool
is_invalid t = same_kind t.kind invalid && is_scalar t

unfoldable pub is_void : SemanticType → Bool
is_void t = is_scalar t && same_kind t.kind void

unfoldable pub is_bool : SemanticType → Bool
is_bool t = is_scalar t && same_kind t.kind bool

unfoldable pub is_string : SemanticType → Bool
is_string t = is_scalar t && same_kind t.kind str

unfoldable pub is_fixed_array : SemanticType → Bool
is_fixed_array t = t.pointer_depth == 0 && not (is_empty t.array_dimensions)

unfoldable pub is_pointer : SemanticType → Bool
is_pointer t = not (t.pointer_depth == 0)

unfoldable pub pointee_type : SemanticType → SemanticType
pointee_type t = record t { pointer_depth = t.pointer_depth - 1 }

abbrev tail : List ℕ → List ℕ
tail [] = []
tail (d ∷ ds) = ds

unfoldable pub after_index : SemanticType → SemanticType
after_index t = record t { array_dimensions = tail t.array_dimensions }

unfoldable pub element_scalar_type : SemanticType → SemanticType
element_scalar_type t = record t { array_dimensions = [] }

unfoldable pub is_integer_kind : BuiltinTypeKind → Bool
is_integer_kind i8 = true
is_integer_kind i16 = true
is_integer_kind i32 = true
is_integer_kind i64 = true
is_integer_kind u8 = true
is_integer_kind u16 = true
is_integer_kind u32 = true
is_integer_kind u64 = true
is_integer_kind _ = false

unfoldable pub is_integer : SemanticType → Bool
is_integer t = not (is_fixed_array t || is_pointer t) && is_integer_kind t.kind

unfoldable pub is_float : SemanticType → Bool
is_float t =
    not (is_fixed_array t || is_pointer t) && (same_kind t.kind f32 || same_kind t.kind f64)

unfoldable pub same_dimensions : List ℕ → List ℕ → Bool
same_dimensions [] [] = true
same_dimensions (d ∷ ds) (e ∷ es) = d == e && same_dimensions ds es
same_dimensions _ _ = false

-- An invalid type agrees with every type.
unfoldable pub same_type : SemanticType → SemanticType → Bool
same_type left right =
    is_invalid left
    || is_invalid right
    || (same_kind left.kind right.kind
        && same_dimensions left.array_dimensions right.array_dimensions
        && left.pointer_depth == right.pointer_depth)

-- The dimensions around the name: the first one is the outermost.
unfoldable pub bracketed : Bytes → List ℕ → Bytes
bracketed name [] = name
bracketed name (d ∷ ds) =
    join (codes "[" ∷ bracketed name ds ∷ codes "; " ∷ decimal d ∷ codes "]" ∷ [])

unfoldable pub starred : ℕ → Bytes → Bytes
starred zero name = name
starred (suc n) name = codes "*" ++ starred n name

unfoldable pub type_name : SemanticType → Bytes
type_name t = starred t.pointer_depth (bracketed (builtin_type_name t.kind) t.array_dimensions)

unfoldable pub type_from_syntax : TypeSyntax → SemanticType
type_from_syntax syntax = record {
  kind = syntax.kind;
  array_dimensions = syntax.array_dimensions;
  pointer_depth = syntax.pointer_depth;
}

unfoldable pub has_explicit_type_syntax : TypeSyntax → Bool
has_explicit_type_syntax syntax =
    not (same_kind syntax.kind invalid)
    || not (is_empty syntax.array_dimensions)
    || not (syntax.pointer_depth == 0)

unfoldable pub can_be_condition : SemanticType → Bool
can_be_condition t = is_bool t || is_integer t || is_invalid t

unfoldable pub width_of_kind : BuiltinTypeKind → ℕ
width_of_kind i8 = 8
width_of_kind u8 = 8
width_of_kind i16 = 16
width_of_kind u16 = 16
width_of_kind i32 = 32
width_of_kind u32 = 32
width_of_kind i64 = 64
width_of_kind u64 = 64
width_of_kind _ = 0

unfoldable pub bit_width : SemanticType → ℕ
bit_width t =
    if is_fixed_array t then width_of_kind (element_scalar_type t).kind else width_of_kind t.kind

unfoldable pub is_signed_kind : BuiltinTypeKind → Bool
is_signed_kind i8 = true
is_signed_kind i16 = true
is_signed_kind i32 = true
is_signed_kind i64 = true
is_signed_kind _ = false

unfoldable pub is_signed : SemanticType → Bool
is_signed t =
    if is_fixed_array t then is_signed_kind (element_scalar_type t).kind else is_signed_kind t.kind

unfoldable pub max_integer_value : SemanticType → ℕ
max_integer_value t =
    let width = bit_width t in
    if width == 0
    then 0
    else if width == 64 && not (is_signed t)
    then 2 ^ 64 - 1
    else 2 ^ (if is_signed t then width - 1 else width) - 1

-- The number of elements, as an `unsigned long long`.
unfoldable pub product_from : ℕ → List ℕ → ℕ
product_from p [] = p
product_from p (d ∷ ds) = product_from (p * d % 2 ^ 64) ds

unfoldable pub flat_element_count_ranked : SemanticType → ℕ
flat_element_count_ranked t = if is_fixed_array t then product_from 1 t.array_dimensions else 1
