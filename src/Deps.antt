-- ===== src/Deps.antt =====
-- include/hipacc/Analysis/HostDataDeps.h: the objects of the dependency analysis of the host program.
--
-- A declaration (`ValueDecl *`) is a number. An image, an iteration space and an accessor are created
-- once for each declaration and never changed afterwards, so their pointers are told apart by the
-- declarations. Spaces and processes are changed through pointers: a pointer is the number of the
-- object in the order of creation, `spaces_` and `processes_` list the objects in that order, and the
-- objects stand in a function from pointers.
pub mod Declare
pub mod Connect
pub mod Tracker
pub mod Schedule
pub mod Entry
pub mod Counts
pub mod Graph
pub mod Edges
pub mod Inputs
pub mod Calls
pub mod Plans
pub mod Marking
pub mod Steps
pub mod Planned
pub mod Scheduled
pub mod Ends
pub mod Programs
pub mod Order
pub mod Lookups
mod Tests
use package.hipacc_vivado.Prelude.{
  ℕ, ◌+◌, Bool, true, false, if◌then◌else◌, ◌==◌, Option, none, some, List, [], ◌∷◌, ◌++◌, Outcome,
  done, aborted,
}

abbrev pub ValueDecl : Type 0
ValueDecl = ℕ

abbrev pub Ptr : Type 0
Ptr = ℕ

pub record IterationSpace : Type 0 where
  pub decl : ValueDecl
  pub image : ValueDecl

-- The field `space` of the source is written and never read.
pub record Accessor : Type 0 where
  pub decl : ValueDecl
  pub image : ValueDecl

pub record Kernel : Type 0 where
  pub decl : ValueDecl
  pub iter : IterationSpace
  pub accs : List Accessor

-- `Kernel::getAccessors(Image *)`
unfoldable pub accessors_of : ValueDecl → List Accessor → List Accessor
accessors_of image [] = []
accessors_of image (a ∷ accs) =
    let rest = accessors_of image accs in if a.image == image then a ∷ rest else rest

-- The names of streams: `_strm` with an image's name, `_strmOut<n>` and `_strmTmp<n>`.
pub data Stream : Type 0 where
  strm : ValueDecl → Stream
  strm_out strm_tmp : ℕ → Stream

-- `stream` is `none` where the source has the empty text.
pub record Space : Type 0 where
  pub image : ValueDecl
  pub iter : Option IterationSpace
  pub accs : List Accessor
  pub src_process : Option Ptr
  pub dst_process : List Ptr
  pub stream : Option Stream
  pub cpy_streams : List Stream

pub record Process : Type 0 where
  pub kernel : Kernel
  pub out_space : Ptr
  pub in_spaces : List Ptr
  pub in_streams : List (Option Stream)
  pub out_stream : Option Stream

pub data Node : Type 0 where
  space_node process_node : Ptr → Node

pub record HostDataDeps : Type 0 where
  pub acc_map : List (ValueDecl × Accessor)
  pub img_map : List (ValueDecl × ValueDecl)
  pub iter_map : List (ValueDecl × IterationSpace)
  pub bc_map : List (ValueDecl × ValueDecl)
  pub kernel_map : List (ValueDecl × Kernel)
  pub spaces : ℕ
  pub space_at : Ptr → Space
  pub processes : ℕ
  pub process_at : Ptr → Process
  pub out_id : ℕ
  pub tmp_id : ℕ
  pub schedule : List Node

-- `new Space(image)` and `new Process(kernel, out_space)`
unfoldable pub new_space : ValueDecl → Space
new_space image = record {
  image = image;
  iter = none;
  accs = [];
  src_process = none;
  dst_process = [];
  stream = none;
  cpy_streams = [];
}

unfoldable pub new_process : Kernel → Ptr → Process
new_process kernel out = record {
  kernel = kernel;
  out_space = out;
  in_spaces = [];
  in_streams = [];
  out_stream = none;
}

abbrev pub update {ℓ} : {A : Type ℓ} → (Ptr → A) → Ptr → A → Ptr → A
update f p v q = if p == q then v else f q

abbrev pub set_space : Ptr → Space → HostDataDeps → HostDataDeps
set_space s v d = record d { space_at = update d.space_at s v }

abbrev pub set_process : Ptr → Process → HostDataDeps → HostDataDeps
set_process p v d = record d { process_at = update d.process_at p v }

-- `map.find(key)`: `map.count(key)` tells whether it is `none`.
unfoldable pub find {ℓ} : {V : Type ℓ} → ValueDecl → List (ValueDecl × V) → Option V
find k [] = none
find k ((j, v) ∷ m) = if j == k then some v else find k m

abbrev pub is_some {ℓ} : {V : Type ℓ} → Option V → Bool
is_some none = false
is_some (some v) = true

-- `assert(map.count(key)); map[key]`
abbrev pub declared {ℓ} : {V : Type ℓ} → Option V → Outcome V
declared none = aborted
declared (some v) = done v
