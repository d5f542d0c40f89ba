-- ===== src/Examples/Storage.antt =====
-- The theorem on the snapshot store, at a concrete disk.
use ocpp_proxy.Base.{
  String, Option, none, some, [], ◌∷◌, ◌≡◌, ◌≢◌, ◌⊎◌, inl, inr, refl, ap, arith, Result, ok, err,
  ◌==◌, eq_iff, eq_refl, if◌then◌else◌, Bool-cases,
}
use ocpp_proxy.Mqtt.Snapshot.{no_state}
use ocpp_proxy.SnapshotStore.{
  SnapshotMap, ErrorKind, not_found, FileSystem, new, load, save, save_inner,
}
use ocpp_proxy.SnapshotStore.Laws.{save-load}

-- files as a function from paths
abbrev Disk : Type 0
Disk = String → Option String

abbrev put : String → Option String → Disk → Disk
put p o w = λ q. if p == q then o else w q

abbrev content : Option String → Result ErrorKind String
content none = err not_found
content (some t) = ok t

put-other : (p q : String) (o : Option String) (w : Disk) → q ≢ p → put q o w p ≡ w p
put-other p q o w apart = elim (Bool-cases (q == p)) [
  | inl e ↦ absurd (apart ((eq_iff q p).0 e))
  | inr e ↦ rw e refl
]

put-same : (p : String) (o : Option String) (w : Disk) → put p o w p ≡ o
put-same p o w = rw (eq_refl p) refl

abbrev moved : Option String → String → Disk → Result ErrorKind (Unit {0}) × Disk
moved none q w = (err not_found, w)
moved (some t) q w = (ok tt, put q (some t) w)

moved-ok :
    (o : Option String) (q : String) (w : Disk)
    → (moved o q w).0 ≡ ok tt
    → content ((moved o q w).1 q) ≡ content o
moved-ok none q w h = absurd (cc)
moved-ok (some t) q w h = ap content (put-same q (some t) w)

moved-err :
    (o : Option String) (q : String) (w : Disk) (e : ErrorKind)
    → (moved o q w).0 ≡ err e
    → content ((moved o q w).1 q) ≡ content (w q)
moved-err none q w e h = refl
moved-err (some t) q w e h = absurd (cc)

abbrev saved_map : SnapshotMap
saved_map = ("CP1", no_state) ∷ []

abbrev fs : FileSystem Disk
fs = record {
  parent = λ p. none;
  with_extension = λ p x. "state.json.tmp";
  read = λ p w. content (w p);
  create_dir_all = λ d w. (ok tt, w);
  create = λ p w. (ok tt, put p (some "") w);
  write_all = λ p b w. (ok tt, put p (some b) w);
  sync_all = λ p w. (ok tt, w);
  rename = λ p q w. moved (w p) q w;
  to_vec = λ m. ok "{\"CP1\":{}}";
  from_slice = λ t. ok saved_map;
  read-create_dir_all = λ p d w. refl;
  read-create = λ p q w apart. ap content (put-other p q (some "") w apart);
  read-write_all = λ p q b w apart. ap content (put-other p q (some b) w apart);
  read-sync_all = λ p q w. refl;
  written = λ p b w h k. ap content (put-same p (some b) (put p (some "") w));
  rename-ok = λ p q w h. moved-ok (w p) q w h;
  rename-err = λ p q w e h. moved-err (w p) q w e h;
}

abbrev empty_disk : Disk
empty_disk = λ p. none

other_file : fs.with_extension "state.json" "json.tmp" ≢ "state.json"
other_file e = absurd (ground (arith, (eq_iff "state.json.tmp" "state.json").1 e))

save-load_example :
    let store = new (some "state.json") in
    let r = save_inner fs "state.json" saved_map empty_disk in
    let w' = save fs store saved_map empty_disk in
    ((r.0 ≡ ok tt) × (load fs store w' ≡ saved_map))
    ⊎ ((e : ErrorKind) × (r.0 ≡ err e) × (load fs store w' ≡ load fs store empty_disk))
save-load_example = save-load fs "state.json" saved_map empty_disk other_file (λ b h. refl)
