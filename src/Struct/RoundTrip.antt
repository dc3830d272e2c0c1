-- ===== src/Struct/RoundTrip.antt =====
-- What was packed is unpacked again, and a packed header has its fields at the offsets of the wire
-- format.
use mini_corundum.Base.{
  ℕ, ◌/◌, ◌%◌, ◌<◌, ◌≡◌, Option, some, List, [], ◌∷◌, length, slice, get_elem?, arith,
}
use mini_corundum.Struct.{IsBytes, unpack_H, unpack_I, pack_header}

-- the seven fields of a command, credit or NACK packet
pub record Header : Type 0 where
  pub magic : ℕ
  pub kind : ℕ
  pub flags : ℕ
  pub ident : ℕ
  pub code : ℕ
  pub arg1 : ℕ
  pub arg2 : ℕ

-- each field fits its width
pub record Fits (f : Header) : Type 0 where
  pub magic_fits : f.magic < 65536
  pub kind_fits : f.kind < 256
  pub flags_fits : f.flags < 256
  pub ident_fits : f.ident < 4294967296
  pub code_fits : f.code < 65536
  pub arg1_fits : f.arg1 < 4294967296
  pub arg2_fits : f.arg2 < 65536

-- A reader that takes each field at its offset finds the fields of `f`.
pub record Carries (f : Header) (pkt : List ℕ) : Type 0 where
  pub size : length pkt ≡ 16
  pub bytes : IsBytes pkt
  pub magic_at : unpack_H (slice 0 2 pkt) ≡ some f.magic
  pub kind_at : get_elem? pkt 2 ≡ some f.kind
  pub flags_at : get_elem? pkt 3 ≡ some f.flags
  pub ident_at : unpack_I (slice 4 8 pkt) ≡ some f.ident
  pub code_at : unpack_H (slice 8 10 pkt) ≡ some f.code
  pub arg1_at : unpack_I (slice 10 14 pkt) ≡ some f.arg1
  pub arg2_at : unpack_H (slice 14 16 pkt) ≡ some f.arg2

abbrev pub pack : Header → Option (List ℕ)
pack f = pack_header f.magic f.kind f.flags f.ident f.code f.arg1 f.arg2

pub wire : Header → List ℕ
wire f =
    f.magic % 256
    ∷ f.magic / 256
    ∷ f.kind
    ∷ f.flags
    ∷ f.ident % 256
    ∷ f.ident / 256 % 256
    ∷ f.ident / 65536 % 256
    ∷ f.ident / 16777216
    ∷ f.code % 256
    ∷ f.code / 256
    ∷ f.arg1 % 256
    ∷ f.arg1 / 256 % 256
    ∷ f.arg1 / 65536 % 256
    ∷ f.arg1 / 16777216
    ∷ f.arg2 % 256
    ∷ f.arg2 / 256
    ∷ []

pub pack-wire : (f : Header) → Fits f → pack f ≡ some (wire f)
unfolding wire pack_header
pack-wire f h = ground arith

pub wire-Carries : (f : Header) → Fits f → Carries f (wire f)
unfolding wire
wire-Carries f h = ground arith
