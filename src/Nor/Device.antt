-- ===== src/Nor/Device.antt =====
-- norFlash.hpp: the geometry that the driver reports, the media size, and the initialisation of
-- LevelX.
use threadx_cpp.Prelude.{
  ℕ, zero, suc, ◌-◌, ◌*◌, ◌/◌, ◌%◌, ◌<◌, ◌≡◌, refl, ap, ◌∙◌, Bool, true, false, List, [], ◌∷◌, M,
  ◌>>◌, bind-eq, pure, returns, arith, lt→ltb, eq→==, if◌then◌else◌,
}
use native.Mathlib.Nat.{mod-eq_of_lt, mul-div_left, div-add-mod'}
use threadx_cpp.Common.{Platform, ulong_mod}
use threadx_cpp.Nor.{NorFlash, World, sector_size, construct, initialise, media_format_size}
use threadx_cpp.Nor.Native.{NorApi}

whole_quotient : (a b : ℕ) → a % b ≡ 0 → a / b * b ≡ a
whole_quotient a b h = omega (arith, div-add-mod' a b)

all_but_one : (q b : ℕ) → (q - 1) * b ≡ q * b - b
all_but_one zero b = omega arith
all_but_one (suc q) b = let e : suc q - 1 ≡ q = omega arith in rw e (omega arith)

two_of : (q b : ℕ) → b < q * b → 1 < q
two_of zero b h = absurd (omega arith)
two_of (suc zero) b h = absurd (omega arith)
two_of (suc (suc q)) b h = omega arith

module _ {K : Type 0} (p : Platform) (api : NorApi K) where
  abbrev pub bytes : NorFlash → ℕ
  bytes self = self.block_sectors * sector_size p api

  words_per_block-eq :
      (self : NorFlash)
      → 0 < p.word_size
      → bytes self < ulong_mod p
      → (initialise p api self).words_per_block * p.word_size ≡ bytes self
  unfolding initialise
  words_per_block-eq self word_pos small =
      let whole : bytes self ≡ self.block_sectors * api.native_sector_size * p.word_size =
        omega arith in
      rw (mod-eq_of_lt small, whole)
        (ap (λ t. t * p.word_size)
          (mul-div_left (self.block_sectors * api.native_sector_size) word_pos))

  total_blocks-eq :
      (self : NorFlash)
      → bytes self < ulong_mod p
      → self.storage_size % bytes self ≡ 0
      → (initialise p api self).total_blocks * bytes self ≡ self.storage_size
  unfolding initialise
  total_blocks-eq self small whole =
      rw (mod-eq_of_lt small) (whole_quotient self.storage_size (bytes self) whole)

  -- A flash of several whole blocks is used but for one block: once the driver has reported its
  -- geometry, `mediaFormatSize` returns the size of the storage less that of a block.
  pub media_format_size-initialise :
      (self : NorFlash) (k : K)
      → 0 < p.word_size
      → bytes self < self.storage_size
      → self.storage_size < ulong_mod p
      → self.storage_size % bytes self ≡ 0
      → media_format_size p api (initialise p api self) k
        ≡ returns (self.storage_size - bytes self, k)
  unfolding media_format_size
  media_format_size-initialise self k word_pos several fits whole =
      let b = bytes self in
      let control = initialise p api self in
      let small : b < ulong_mod p = omega arith in
      let blocks = total_blocks-eq self small whole in
      let at_least_two : 1 < control.total_blocks = two_of control.total_blocks b (omega arith) in
      let size : (control.total_blocks - 1) * b ≡ self.storage_size - b =
        all_but_one control.total_blocks b ∙ ap (λ t. t - b) blocks in
      let size_fits : self.storage_size - b < ulong_mod p = omega arith in
      rw (lt→ltb 1 control.total_blocks at_least_two, words_per_block-eq self word_pos small, size)
        (ap (λ t. returns (t, k)) (mod-eq_of_lt size_fits))

  -- Constructor calls, one after the other.
  unfoldable pub construct_all : List NorFlash → M (World K) (Unit {0})
  construct_all [] = pure tt
  construct_all (f ∷ fs) = do construct p api f; construct_all fs

  -- The storage of each flash is a whole number of blocks.
  abbrev pub AllWhole : List NorFlash → Type 0
  AllWhole [] = Unit {0}
  AllWhole (f ∷ fs) = (f.storage_size % bytes f ≡ 0) × AllWhole fs

  construct_step :
      (f : NorFlash) (w : World K)
      → f.storage_size % bytes f ≡ 0
      → construct p api f w
        ≡ returns (
          tt,
          if w.initialised
              then w
              else record { initialised = true; kernel = api.initialize w.kernel },
        )
  unfolding construct
  construct_step f w whole = ground (arith, eq→== (f.storage_size % bytes f) 0 whole)

  later_constructions :
      (fs : List NorFlash) (w : World K)
      → AllWhole fs
      → w.initialised ≡ true
      → construct_all fs w ≡ returns (tt, w)
  unfolding construct_all
  later_constructions [] w whole done = refl
  later_constructions (f ∷ fs) w whole done =
      bind-eq (construct p api f) (λ _. construct_all fs) w
        (construct_step f w whole.0
          ∙ ap
              (λ (b : Bool). returns (
                tt,
                if b then w else record { initialised = true; kernel = api.initialize w.kernel },
              ))
              done)
      ∙ later_constructions fs w whole.1 done

  -- However many flashes of whole blocks a program constructs, at least one, LevelX is initialised
  -- once.
  pub construct_all-once :
      (f : NorFlash) (fs : List NorFlash) (k : K)
      → AllWhole (f ∷ fs)
      → construct_all (f ∷ fs) (record { initialised = false; kernel = k })
        ≡ returns (tt, record { initialised = true; kernel = api.initialize k })
  unfolding construct_all
  construct_all-once f fs k whole =
      bind-eq (construct p api f) (λ _. construct_all fs)
        (record { initialised = false; kernel = k })
        (construct_step f (record { initialised = false; kernel = k }) whole.0)
      ∙ later_constructions fs (record { initialised = true; kernel = api.initialize k }) whole.1
          refl
