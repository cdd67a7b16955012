-- ===== src/Deps/Lookups.antt =====
-- lib/Analysis/HostDataDeps.cpp: what the declarations of a host program refer to.
use hipacc_vivado.Prelude.{◌≡◌, refl, ◌==◌, if◌then◌else◌, none, some, ◌∷◌, done, ◌>>=◌, arith}
use hipacc_vivado.Deps.{ValueDecl, HostDataDeps, find}
use hipacc_vivado.Deps.Declare.{add_boundary_condition, add_accessor, accessed_image}

-- An accessor that is declared on a boundary condition is for the image of the boundary condition. The
-- two declarations succeed if the image is declared and the names are new; the accessor is found
-- afterwards with that image, and every other accessor as before.
pub add_accessor-boundary_condition :
    (d : HostDataDeps) (bc img acc other image : ValueDecl)
    → find img d.img_map ≡ some image
    → find bc d.img_map ≡ none
    → find bc d.bc_map ≡ none
    → find acc d.acc_map ≡ none
    → (e : HostDataDeps) × ((add_boundary_condition bc img d >>= add_accessor acc bc) ≡ done e)
      × (find other e.acc_map ≡ (
          if acc == other
          then some (record { decl = acc; image = image })
          else find other d.acc_map))
unfolding add_boundary_condition add_accessor accessed_image find
add_accessor-boundary_condition d bc img acc other image is_image not_image new_bc new_acc = (
  record d {
    bc_map = (bc, image) ∷ d.bc_map;
    acc_map = (acc, record { decl = acc; image = image }) ∷ d.acc_map;
  },
  ground arith,
  refl,
)
