-- ===== src/Examples.antt =====
-- Tests, and the theorems at concrete inputs. The arithmetic is a toy, integers for floats, in which
-- normalisation is the identity.
pub mod Indexes
pub mod Stores
pub mod Publications
pub mod Executors
pub mod Budgets
pub mod Files
pub mod Graphs
pub mod Snapshots
pub mod Batches
use fast_vector.Prelude.{ℕ, ◌+◌, ◌*◌, ◌==◌, false, if◌then◌else◌, List, [], ◌∷◌, no_ids}
use fast_vector.Float.{double_one}
use fast_vector.Distance.{Machine, scalar}
use fast_vector.FlatIndex
use fast_vector.FlatIndex.{FlatIndex, no_fault}

abbrev pub toy : Machine
toy = record {
  arithmetic = record {
    widen = λ x. x;
    narrow = λ x. x;
    fadd = λ x y. x + y;
    fmul = λ x y. x * y;
    dadd = λ x y. x + y;
    dsub = λ x y. 0;
    dmul = λ x y. if y == double_one then x else x * y;
    ddiv = λ x y. x;
    dsqrt = λ x. x;
  };
  avx2_available = false;
}

abbrev pub empty : FlatIndex
empty = record { dimension = 2; kernel = scalar; vectors = []; ids = []; id_to_row = no_ids }

abbrev pub one_row : FlatIndex
one_row = (FlatIndex.add toy no_fault empty 7 (3 ∷ 4 ∷ [])).0

abbrev pub two_rows : FlatIndex
two_rows = (FlatIndex.add toy no_fault one_row 5 (1 ∷ 2 ∷ [])).0
