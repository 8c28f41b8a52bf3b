-- ===== src/Video/Enumerate/Accepted.antt =====
-- The pixel format name and the frame rates of an entry of the enumeration.
use tinypipewire.Common.{
  String, subst, sym, Option-cases, inl, inr, ℕ, ◌/◌, ◌%◌, ◌^◌, ◌≡◌, refl, ◌∙◌, ◌⊎◌, ◌≢◌, true,
  Option, none, some, List, [], ◌∷◌, arith, length,
}
use tinypipewire.Format.{
  VideoFormat, VideoFormat-discrete, lookup_pixel_format, pixel_format_name_or_null,
  pixel_format_is_mjpg, pixel_format_is_h264,
}
use tinypipewire.Video.Framerates.{Rates, insert_framerate}
use tinypipewire.Video.Framerates.Sorted.{
  IsValid, insert_framerate-IsValid, length-insert_framerate,
}
use tinypipewire.Video.Enumerate.{
  FormatParam, FormatInfo, read_format, parse_pixel_format, insert_fraction, insert_fractions,
  parse_framerates, parse_size, scratch, first_format, PodValues, subtype_name, selected,
  MediaSubtype, raw, mjpg, h264, other_subtype,
}

-- The rate list of an entry: valid, with the eight places of the array.
pub record RatesOk (r : Rates) : Type 0 where
  pub valid : IsValid r
  pub places : length r.fps ≡ 8

insert_framerate-RatesOk : (r : Rates) (fps : ℕ) → RatesOk r → RatesOk (insert_framerate r fps)
insert_framerate-RatesOk r fps v = record {
  valid = insert_framerate-IsValid r fps v.valid;
  places = length-insert_framerate r fps ∙ v.places;
}

insert_fraction-RatesOk :
    (num denom : ℕ) (r : Rates) → RatesOk r → RatesOk (insert_fraction r (num, denom))
unfolding insert_fraction
insert_fraction-RatesOk num denom r v =
    ground (arith, insert_framerate-RatesOk r (num / denom % 2 ^ 32) v)

insert_fractions-RatesOk :
    (l : List (ℕ × ℕ)) (r : Rates) → RatesOk r → RatesOk (insert_fractions r l)
unfolding insert_fractions
insert_fractions-RatesOk [] r v = v
insert_fractions-RatesOk ((num, denom) ∷ l) r v =
    insert_fractions-RatesOk l (insert_fraction r (num, denom))
      (insert_fraction-RatesOk num denom r v)

-- A name that `pwf_stream_set_video_config` takes as its pixel format.
abbrev pub Requestable : String → Type 0
Requestable name =
    (pixel_format_is_mjpg name ≡ true)
    ⊎ (pixel_format_is_h264 name ≡ true)
    ⊎ (lookup_pixel_format name ≢ VideoFormat.unknown)

named : {a b : String} → some a ≡ some b → Requestable a → Requestable b
named e r = subst Requestable (cc) r

known :
    (f : VideoFormat) {name : String} → pixel_format_name_or_null f ≡ some name → Requestable name
unfolding pixel_format_name_or_null VideoFormat-discrete lookup_pixel_format pixel_format_is_mjpg
    pixel_format_is_h264
known VideoFormat.unknown e = cc
known VideoFormat.encoded e = named e (inl refl)
known VideoFormat.rgb e = named e (inr (inr (λ u. cc)))
known VideoFormat.yuy2 e = named e (inr (inr (λ u. cc)))
known VideoFormat.nv12 e = named e (inr (inr (λ u. cc)))
known VideoFormat.nv21 e = named e (inr (inr (λ u. cc)))
known VideoFormat.i420 e = named e (inr (inr (λ u. cc)))
known (VideoFormat.other n) e = cc

encoded_names : Requestable "MJPG" × Requestable "H264"
unfolding pixel_format_is_mjpg pixel_format_is_h264
encoded_names = (inl refl, inr (inl refl))

first_format-Requestable :
    (entries : Option (List VideoFormat)) {name : String}
    → first_format entries ≡ some name
    → Requestable name
unfolding first_format
first_format-Requestable none e = cc
first_format-Requestable (some []) e = cc
first_format-Requestable (some (f ∷ fs)) e = known f e

subtype_name-Requestable :
    (subtype : Option MediaSubtype) (format : Option (PodValues VideoFormat)) {name : String}
    → subtype_name subtype format ≡ some name
    → Requestable name
unfolding subtype_name
subtype_name-Requestable none format e = cc
subtype_name-Requestable (some mjpg) format e = named e encoded_names.0
subtype_name-Requestable (some h264) format e = named e encoded_names.1
subtype_name-Requestable (some other_subtype) format e = cc
subtype_name-Requestable (some raw) none e = cc
subtype_name-Requestable (some raw) (some values) e = first_format-Requestable values.entries e

parse_pixel_format-Requestable :
    (p : FormatParam) {name : String} → parse_pixel_format p ≡ some name → Requestable name
unfolding parse_pixel_format
parse_pixel_format-Requestable p e = subtype_name-Requestable p.subtype p.format e

parse_size-rates :
    (p : FormatParam) (info : FormatInfo) {sized : FormatInfo}
    → parse_size p info ≡ some sized
    → sized.rates ≡ info.rates
unfolding parse_size
parse_size-rates p info e = ground arith

parse_framerates-RatesOk :
    (p : FormatParam) (info : FormatInfo)
    → RatesOk info.rates
    → RatesOk (parse_framerates p info).rates
unfolding parse_framerates
parse_framerates-RatesOk p info v = elim (Option-cases p.framerate) [
  | inl e ↦ rw (e, parse_framerates) v
  | inr (values, e) ↦ elim (Option-cases values.entries) [
    | inl e' ↦ rw (e, e', parse_framerates) v
    | inr (l, e') ↦
        rw (e, e', parse_framerates)
          (insert_fractions-RatesOk (selected values.choice l) info.rates v)
  ]
]

scratch-RatesOk : RatesOk scratch.rates
scratch-RatesOk = record { valid = record { within = omega arith; falling = tt }; places = refl }

-- Every entry of the enumeration has a pixel format name that the format setters accept, an encoded
-- format's or one that the lookup knows, and its frame rates fall strictly, at most eight of them.
pub read_format-Requestable :
    (p : FormatParam) {info : FormatInfo}
    → read_format p ≡ some info
    → Requestable info.pixel_format × RatesOk info.rates
unfolding read_format
read_format-Requestable p {info} e = elim (Option-cases (parse_pixel_format p)) [
  | inl no_name ↦ absurd (ground arith)
  | inr (name, named_so) ↦ elim (Option-cases (parse_size p scratch)) [
    | inl no_size ↦ absurd (ground arith)
    | inr (sized, s) ↦
        let built : FormatInfo = record (parse_framerates p sized) { pixel_format = name } in
        subst {A = FormatInfo} (λ i. Requestable i.pixel_format × RatesOk i.rates) {x = built}
          {y = info} (ground arith)
          (
            parse_pixel_format-Requestable p named_so,
            parse_framerates-RatesOk p sized
                (subst RatesOk (sym (parse_size-rates p scratch s)) scratch-RatesOk),
          )
  ]
]
