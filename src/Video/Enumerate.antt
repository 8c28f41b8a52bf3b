-- ===== src/Video/Enumerate.antt =====
-- The EnumFormat handler of src/pwf_video_enum.c. A `struct spa_pod` is given by what SPA's parsing
-- functions return for it, which is all that the handler sees of it.
pub mod CountThenFill
pub mod Accepted
use tinypipewire.Common.{
  ℕ, zero, suc, ◌+◌, ◌-◌, ◌*◌, ◌/◌, ◌%◌, ◌^◌, String, Bool, true, false, not, ◌&&◌, ◌||◌, Option,
  none, some, List, [], ◌∷◌, length, set, get_elem?, drop, take, replicate, ltb, leb, ◌==◌,
  if◌then◌else◌,
}
use tinypipewire.Common.Int.{ℤ, pos, negsuc, to_int}
use tinypipewire.Format.{VideoFormat, pixel_format_name_or_null}
use tinypipewire.Video.Framerates.{Rates, insert_framerate}

-- `enum spa_choice_type`
pub data Choice : Type 0 where
  choice_none range step enum other : Choice

-- What `spa_pod_get_values` makes of a property: `entries` is `none` where it returns NULL or values
-- of another type than the property should have.
pub record PodValues (A : Type 0) : Type 0 where
  pub choice : Choice
  pub entries : Option (List A)

pub data MediaSubtype : Type 0 where
  raw mjpg h264 other_subtype : MediaSubtype

-- One EnumFormat object: whether `spa_format_parse` finds the video type and which subtype, and the
-- three properties looked up in it.
pub record FormatParam : Type 0 where
  pub subtype : Option MediaSubtype
  pub format : Option (PodValues VideoFormat)
  pub size : Option (PodValues (ℕ × ℕ))
  pub framerate : Option (PodValues (ℕ × ℕ))

-- `struct pwf_video_format_info`
pub record FormatInfo : Type 0 where
  pub pixel_format : String
  pub width : ℤ
  pub height : ℤ
  pub width_max : ℤ
  pub height_max : ℤ
  pub rates : Rates

-- The default value of a format property, the first of its values.
first_format : Option (List VideoFormat) → Option String
first_format none = none
first_format (some []) = none
first_format (some (f ∷ fs)) = pixel_format_name_or_null f

subtype_name : Option MediaSubtype → Option (PodValues VideoFormat) → Option String
unfolding first_format
subtype_name none format = none
subtype_name (some mjpg) format = some "MJPG"
subtype_name (some h264) format = some "H264"
subtype_name (some other_subtype) format = none
subtype_name (some raw) none = none
subtype_name (some raw) (some values) = first_format values.entries

unfoldable pub parse_pixel_format : FormatParam → Option String
unfolding subtype_name
parse_pixel_format param = subtype_name param.subtype param.format

-- `choice == SPA_CHOICE_Range || choice == SPA_CHOICE_Step`
abbrev is_ranged : Choice → Bool
is_ranged range = true
is_ranged step = true
is_ranged _ = false

-- The two ends that `pwf_video_parse_size` reads: entries 1 and 2 of a range of three or more, and
-- entry 0 otherwise.
size_ends : Bool → List (ℕ × ℕ) → Option ((ℕ × ℕ) × (ℕ × ℕ))
size_ends ranged [] = none
size_ends true (d ∷ low ∷ high ∷ l) = some (low, high)
size_ends true (d ∷ []) = some (d, d)
size_ends true (d ∷ low ∷ []) = some (d, d)
size_ends false (d ∷ l) = some (d, d)

-- `pwf_video_parse_size`; `none` for its false.
unfoldable pub parse_size : FormatParam → FormatInfo → Option FormatInfo
unfolding size_ends
parse_size param info = elim param.size [
  | none ↦ none
  | some v ↦ elim v.entries [
    | none ↦ none
    | some rects ↦ elim (size_ends (is_ranged v.choice) rects) [
      | none ↦ none
      | some (low, high) ↦
          if low.0 == 0 || low.1 == 0
          then none
          else some (record info {
            width = to_int low.0;
            height = to_int low.1;
            width_max = to_int high.0;
            height_max = to_int high.1;
          })
    ]
  ]
]

-- The entries that the `switch` on the choice selects: `fracs[first]` to `fracs[last]`.
selected : Choice → List (ℕ × ℕ) → List (ℕ × ℕ)
selected choice_none (f ∷ l) = f ∷ []
selected enum (f ∷ l) = l
selected range (d ∷ low ∷ high ∷ l) = low ∷ high ∷ []
selected step (d ∷ low ∷ high ∷ l) = low ∷ high ∷ []
selected _ _ = []

-- One round of the loop over them.
insert_fraction : Rates → ℕ × ℕ → Rates
insert_fraction rates (num, denom) = if denom == 0 then rates else elim (to_int (num / denom)) [
  | pos fps ↦ if ltb 0 fps then insert_framerate rates fps else rates
  | negsuc n ↦ rates
]

insert_fractions : Rates → List (ℕ × ℕ) → Rates
unfolding insert_fraction
insert_fractions rates [] = rates
insert_fractions rates (f ∷ l) = insert_fractions (insert_fraction rates f) l

unfoldable pub parse_framerates : FormatParam → FormatInfo → FormatInfo
unfolding insert_fractions selected
parse_framerates param info = elim param.framerate [
  | none ↦ info
  | some v ↦ elim v.entries [
    | none ↦ info
    | some fracs ↦ record info { rates = insert_fractions info.rates (selected v.choice fracs) }
  ]
]

-- The scratch entry, zeroed; `info.fps` has eight places.
abbrev pub scratch : FormatInfo
scratch = record {
  pixel_format = "";
  width = pos 0;
  height = pos 0;
  width_max = pos 0;
  height_max = pos 0;
  rates = record { fps = replicate 8 0; n_fps = 0 };
}

-- `struct pwf_video_enum_ctx`: the caller's array, with its length, and the true count.
pub record EnumCtx : Type 0 where
  pub out : Option (List FormatInfo)
  pub out_len : ℕ
  pub found : ℕ

-- The part of the handler before it stores: what it makes of one object, `none` where it returns.
unfoldable pub read_format : FormatParam → Option FormatInfo
unfolding parse_pixel_format parse_size parse_framerates
read_format param = elim (parse_pixel_format param) [
  | none ↦ none
  | some name ↦ elim (parse_size param scratch) [
    | none ↦ none
    | some info ↦ some (record (parse_framerates param info) { pixel_format = name })
  ]
]

-- `if (ctx->out && ctx->found < ctx->out_len) ctx->out[ctx->found] = info; ctx->found++;`
store : EnumCtx → FormatInfo → EnumCtx
store ctx info = record ctx {
  out = elim ctx.out [
    | none ↦ none
    | some out ↦ some (if ltb ctx.found ctx.out_len then set out ctx.found info else out)
  ];
  found = (ctx.found + 1) % 2 ^ 64;
}

-- `pwf_video_enum_on_param`; `is_enum_format` is `id == SPA_PARAM_EnumFormat`.
unfoldable pub on_param : EnumCtx → Bool → Option FormatParam → EnumCtx
unfolding store
on_param ctx is_enum_format param = elim param [
  | none ↦ ctx
  | some p ↦
      if not is_enum_format
      then ctx
      else elim (read_format p) [ none ↦ ctx | some info ↦ store ctx info ]
]
