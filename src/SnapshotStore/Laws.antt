-- ===== src/SnapshotStore/Laws.antt =====
-- What a load yields after a save (src/snapshot_store.rs).
use ocpp_proxy.Base.{
  String, some, ◌≡◌, ◌≢◌, refl, ◌∙◌, ◌⊎◌, inl, inr, ok, err, Result, ◌==◌, Bool-cases, Result-cases,
  Option-cases,
}
use ocpp_proxy.SnapshotStore.{
  new, SnapshotMap, ErrorKind, FileSystem, load, load_file, create_parent, replace_file, save_inner,
  save,
}

module _ {W : Type 0} (fs : FileSystem W) where
  open fs use {read}

  -- The file reads as the bytes, and the work succeeded; or it failed, and the file reads as before.
  abbrev pub Replaced : String → String → W → Result ErrorKind (Unit {0}) × W → Type 0
  Replaced path bytes w r =
      ((r.0 ≡ ok tt) × (read path r.1 ≡ ok bytes))
      ⊎ ((e : ErrorKind) × (r.0 ≡ err e) × (read path r.1 ≡ read path w))

  create_parent-read : (path q : String) (w : W) → read q (create_parent fs path w).1 ≡ read q w
  unfolding create_parent
  create_parent-read path q w = elim (Option-cases (fs.parent path)) [
    | inl e ↦ rw (e, create_parent) refl
    | inr (dir, e) ↦ elim (Bool-cases (dir == "")) [
      | inl empty ↦ rw (e, empty, create_parent) refl
      | inr named ↦ rw (e, named, create_parent) (fs.read-create_dir_all q dir w)
    ]
  ]

  replace_file-Replaced :
      (tmp path bytes : String) (w : W)
      → tmp ≢ path
      → Replaced path bytes w (replace_file fs tmp path bytes w)
  unfolding replace_file
  replace_file-Replaced tmp path bytes w apart =
      let (created, w1) = fs.create tmp w in
      let (wrote, w2) = fs.write_all tmp bytes w1 in
      let (synced, w3) = fs.sync_all tmp w2 in
      let (moved, w4) = fs.rename tmp path w3 in
      let same1 = fs.read-create path tmp w apart in
      let same2 = fs.read-write_all path tmp bytes w1 apart ∙ same1 in
      let same3 = fs.read-sync_all path tmp w2 ∙ same2 in
      elim (Result-cases created) [
        | inr (e, c) ↦ rw c (inr (e, refl, same1))
        | inl (u, c) ↦ elim (Result-cases wrote) [
          | inr (e, b) ↦ rw (c, b) (inr (e, refl, same2))
          | inl (u', b) ↦ elim (Result-cases synced) [
            | inr (e, s) ↦ rw (c, b, s) (inr (e, refl, same3))
            | inl (u'', s) ↦ elim (Result-cases moved) [
              | inr (e, m) ↦ rw (c, b, s, m) (inr (e, refl, fs.rename-err tmp path w3 e m ∙ same3))
              | inl (u''', m) ↦
                  rw (c, b, s, m)
                    (inl (
                      refl,
                      fs.rename-ok tmp path w3 m
                          ∙ fs.read-sync_all tmp tmp w2
                          ∙ fs.written tmp bytes w c b,
                    ))
            ]
          ]
        ]
      ]

  -- A save that succeeds leaves a file that holds the map; one that fails leaves the file as it was.
  save_inner-read :
      (path : String) (map : SnapshotMap) (w : W)
      → fs.with_extension path "json.tmp" ≢ path
      → let r = save_inner fs path map w in
        ((bytes : String) × (fs.to_vec map ≡ ok bytes) × (r.0 ≡ ok tt) × (read path r.1 ≡ ok bytes))
        ⊎ ((e : ErrorKind) × (r.0 ≡ err e) × (read path r.1 ≡ read path w))
  unfolding save_inner
  save_inner-read path map w apart =
      let (made, w1) = create_parent fs path w in
      let same = create_parent-read path path w in
      elim (Result-cases made) [
        | inr (e, m) ↦ rw (m, save_inner) (inr (e, refl, same))
        | inl (u, m) ↦ elim (Result-cases (fs.to_vec map)) [
          | inr (e, v) ↦ rw (m, v, save_inner) (inr (_, refl, same))
          | inl (bytes, v) ↦
              elim (replace_file-Replaced (fs.with_extension path "json.tmp") path bytes w1 apart) [
                | inl (done, holds) ↦ rw (m, v, save_inner) (inl (bytes, refl, done, holds))
                | inr (e, failed, kept) ↦ rw (m, v, save_inner) (inr (e, failed, kept ∙ same))
              ]
        ]
      ]

  load-same :
      (path : String) (w w' : W)
      → read path w' ≡ read path w
      → load fs (new (some path)) w' ≡ load fs (new (some path)) w
  unfolding load load_file
  load-same path w w' same = rw (same, load_file) refl

  load-read :
      (path bytes : String) (map : SnapshotMap) (w : W)
      → read path w ≡ ok bytes
      → fs.from_slice bytes ≡ ok map
      → load fs (new (some path)) w ≡ map
  unfolding load load_file
  load-read path bytes map w holds parsed = rw (holds, parsed, load_file) refl

  -- Where the temporary file is another file and what the codec writes for the map reads as the map: after a
  -- save that succeeds, a load yields the map that was saved. After one that fails, at whatever call and with
  -- whatever that call left in the temporary file, a load yields what it yielded before.
  pub save-load :
      (path : String) (map : SnapshotMap) (w : W)
      → fs.with_extension path "json.tmp" ≢ path
      → ((bytes : String) → fs.to_vec map ≡ ok bytes → fs.from_slice bytes ≡ ok map)
      → let store = new (some path) in
        let r = save_inner fs path map w in
        ((r.0 ≡ ok tt) × (load fs store (save fs store map w) ≡ map))
        ⊎ ((e : ErrorKind) × (r.0 ≡ err e)
            × (load fs store (save fs store map w) ≡ load fs store w))
  unfolding save
  save-load path map w apart codec = elim (save_inner-read path map w apart) [
    | inl (bytes, v, done, holds) ↦ inl (done, load-read path bytes map _ holds (codec bytes v))
    | inr (e, failed, kept) ↦ inr (e, failed, load-same path w _ kept)
  ]
