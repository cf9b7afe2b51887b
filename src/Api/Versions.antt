-- ===== src/Api/Versions.antt =====
-- core/src/versioned/mapx_raw/mod.rs: what the creation of a version promises to the queries by name.
use vsdb.Prelude.{[], ◌≡◌, refl, ◌∙◌, true, false, none, some, arith}
use vsdb.Common.{RawBytes, BranchId, VersionId}
use vsdb.Exec.{ok, err, version_already_exists}
use vsdb.Mapx
use vsdb.Mapx.{Mapx, at, nat_ord, bytes_ord}
use vsdb.Mapx.Laws.{get-insert}
use vsdb.Backend.{MapxRawVs, VerMap}
use vsdb.Backend.Version
use vsdb.Backend.Version.{version_get_id_by_name}
use vsdb.Backend.Version.Create.{created, version_create_by_branch_lem}
use vsdb.Backend.Branch.{branch_get_id_by_name}
use vsdb.Api.Manage

on-found :
    (t : MapxRawVs) (n : VersionId) (br : BranchId) (vers : VerMap)
    → Mapx.get t.br_to_its_vers br ≡ some vers
    → Version.version_exists_on_branch t n br ≡ Mapx.contains_key vers n
unfolding Version.version_exists_on_branch
on-found t n br vers found = rw (found, Version.version_exists_on_branch) refl

unchanged-found :
    (t : MapxRawVs) (n : VersionId)
    → Mapx.get t.ver_to_change_set n ≡ some []
    → Version.version_has_change_set n t ≡ (ok false, t)
unfolding Version.version_has_change_set
unchanged-found t n found = rw found refl

module _ (s : MapxRawVs) (ver_name br_name : RawBytes) (br : BranchId) (vers : VerMap)
    (named : branch_get_id_by_name s br_name ≡ some br)
    (found : Mapx.get s.br_to_its_vers br ≡ some vers) where
  create-unused :
      version_get_id_by_name s ver_name ≡ none
      → Manage.version_create_by_branch ver_name br_name s ≡ (ok tt, created s ver_name br)
  unfolding Manage.version_create_by_branch
  create-unused unused = rw (named, version_create_by_branch_lem s ver_name br, unused, found) refl

  name-created : version_get_id_by_name (created s ver_name br) ver_name ≡ some s.db.ver_id
  name-created = ground (
    arith,
    get-insert s.ver_name_to_ver_id ver_name s.db.ver_id ver_name,
    Mapx.cmp_bytes_refl ver_name,
  )

  vers-created :
      Mapx.get (created s ver_name br).br_to_its_vers br
      ≡ some (Mapx.insert (at s.br_to_its_vers br) s.db.ver_id [])
  vers-created = ground (
    arith,
    get-insert s.br_to_its_vers br (Mapx.insert (at s.br_to_its_vers br) s.db.ver_id []) br,
  )

  exists-created : Manage.version_exists_on_branch (created s ver_name br) ver_name br_name ≡ true
  unfolding Manage.version_exists_on_branch
  exists-created =
      rw (named, name-created)
        (on-found (created s ver_name br) s.db.ver_id br _ vers-created
          ∙ ground (arith, get-insert (at s.br_to_its_vers br) s.db.ver_id [] s.db.ver_id))

  change_set-created : Mapx.get (created s ver_name br).ver_to_change_set s.db.ver_id ≡ some []
  change_set-created = ground (arith, get-insert s.ver_to_change_set s.db.ver_id [] s.db.ver_id)

  has_change_set-created :
      Manage.version_has_change_set ver_name (created s ver_name br)
      ≡ (ok false, created s ver_name br)
  unfolding Manage.version_has_change_set
  has_change_set-created =
      rw name-created (unchanged-found (created s ver_name br) s.db.ver_id change_set-created)

  create-created :
      Manage.version_create_by_branch ver_name br_name (created s ver_name br)
      ≡ (err version_already_exists, created s ver_name br)
  unfolding Manage.version_create_by_branch
  create-created =
      rw (named, version_create_by_branch_lem (created s ver_name br) ver_name br, name-created)
        refl

  -- A name gets its version once: the creation of a version under an unused name, on a named branch
  -- that is there, succeeds, and then the version exists on the branch under that name, has no
  -- changes, and a second creation under that name fails and changes nothing.
  pub version_exists_on_branch-version_create_by_branch :
      version_get_id_by_name s ver_name ≡ none
      → let t = (Manage.version_create_by_branch ver_name br_name s).1 in
        ((Manage.version_create_by_branch ver_name br_name s).0 ≡ ok tt)
        × (Manage.version_exists_on_branch t ver_name br_name ≡ true)
        × (Manage.version_has_change_set ver_name t ≡ (ok false, t))
        × (Manage.version_create_by_branch ver_name br_name t ≡ (err version_already_exists, t))
  version_exists_on_branch-version_create_by_branch unused =
      rw (create-unused unused) (refl, exists-created, has_change_set-created, create-created)
