-- ===== src/Device/Effects.antt =====
-- What each setter of `Device` leaves in the superblock.
use paffs.Prelude.{ℕ, ◌<◌, ◌≡◌, refl, arith}
use paffs.Types.{AreaType, AreaStatus, type_no}
use paffs.Journal.{Entry}
use paffs.Superblock
use paffs.Device.{
  Env, Device, log, set_type, set_status, set_active_area, set_used_areas, increase_erasecount,
  reset_as_written, delete_summary,
}

module _ {F C P : Type 0} (e : Env F C P) where
  pub sb-log : (x : Entry) (d : Device F C P) → (log e x d).sb ≡ d.sb
  unfolding log
  sb-log x d = refl

  pub sb-set_type :
      (a : ℕ) (t : AreaType) (d : Device F C P)
      → a < e.config.areas_no
      → (set_type e a t d).sb ≡ Superblock.store_type e.config a t d.sb
  unfolding set_type log
  sb-set_type a t d h = ground arith

  pub sb-set_status :
      (a : ℕ) (st : AreaStatus) (d : Device F C P)
      → a < e.config.areas_no
      → (set_status e a st d).sb ≡ Superblock.store_status e.config a st d.sb
  unfolding set_status log
  sb-set_status a st d h = ground arith

  pub sb-increase_erasecount :
      (a : ℕ) (d : Device F C P)
      → a < e.config.areas_no
      → (increase_erasecount e a d).sb ≡ Superblock.store_erasecount e.config a d.sb
  unfolding increase_erasecount log
  sb-increase_erasecount a d h = ground arith

  pub sb-set_active_area :
      (t : AreaType) (a : ℕ) (d : Device F C P)
      → type_no t < 7
      → (set_active_area e t a d).sb ≡ Superblock.store_active_area e.config t a d.sb
  unfolding set_active_area log
  sb-set_active_area t a d h = ground arith

  pub sb-set_used_areas :
      (n : ℕ) (d : Device F C P)
      → (set_used_areas e n d).sb ≡ Superblock.store_used_areas e.config n d.sb
  unfolding set_used_areas log
  sb-set_used_areas n d = refl

  pub sb-reset_as_written : (a : ℕ) (d : Device F C P) → (reset_as_written e a d).sb ≡ d.sb
  unfolding reset_as_written log
  sb-reset_as_written a d = ground arith

  pub sb-delete_summary : (a : ℕ) (d : Device F C P) → (delete_summary e a d).sb ≡ d.sb
  unfolding delete_summary log
  sb-delete_summary a d = ground arith
