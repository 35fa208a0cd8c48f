-- ===== src/Sps/Info.antt =====
-- `struct sps_info` of src/fshare2fifo/fshare2fifo.c.
use yi_outdoor_1080p_ptz.Prelude.{ℕ}

pub record SpsInfo : Type 0 where
  pub profile : ℕ
  pub constraint : ℕ
  pub level : ℕ
  pub sps_id : ℕ
  pub log2frm : ℕ
  pub poc_type : ℕ
  pub poc_lsb : ℕ
  pub max_ref : ℕ
  pub w : ℕ
  pub h : ℕ
  pub fmbo : ℕ
  pub mb_adaptive : ℕ
  pub direct8x8 : ℕ
  pub crop_flag : ℕ
  pub crop0 : ℕ
  pub crop1 : ℕ
  pub crop2 : ℕ
  pub crop3 : ℕ
  pub valid : ℕ

-- `memset(si, 0, sizeof(*si))`
abbrev pub blank : SpsInfo
blank = record {
  profile = 0;
  constraint = 0;
  level = 0;
  sps_id = 0;
  log2frm = 0;
  poc_type = 0;
  poc_lsb = 0;
  max_ref = 0;
  w = 0;
  h = 0;
  fmbo = 0;
  mb_adaptive = 0;
  direct8x8 = 0;
  crop_flag = 0;
  crop0 = 0;
  crop1 = 0;
  crop2 = 0;
  crop3 = 0;
  valid = 0;
}

abbrev pub nal_buf_max : ℕ
nal_buf_max = 256
