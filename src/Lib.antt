-- ===== src/Lib.antt =====
-- The streaming image operators that hipacc generates calls of for Vivado HLS, from
-- runtime/hipacc_vivado_filter.hpp; the boundary handling that its compiler puts into kernels, from
-- lib/AST/BorderHandling.cpp; and the analysis of the host program that connects the operators by
-- streams, from lib/Analysis/HostDataDeps.cpp.
--
-- The parts of the program and where they are modelled:
--
--   Border.antt: `BorderPadding` and `getNewCoords`. Border/Source.antt says which pixel a tap of a
--   kernel should read; the modules beside it relate the entry that the code picks to that.
--   Boundary.antt: `addClampUpper` to `addConstantLower`, and Boundary/Handling.antt: `addBorderHandling`,
--   which put statements before an access to an image. The statements are data, and `run` runs them on
--   the values of the declarations that they name.
--   Window.antt: the line buffer and the sliding window, with the loops UPDATE THE WINDOW, UPDATE THE
--   LINE BUFFER and HANDLE BORDERS of `process` as `shift_window`, `update_lines`, `border_x` and
--   `border_y`; `refresh` is what an iteration does between the input and the filter.
--   Local.antt: `process` and `processSIMO`, as instances of one `scan` with an input and an output
--   part. Merge.antt: `processMISO`, which has two sets of arrays. Pyramid.antt: `downsample` and
--   `upsample`, which leave out some outputs, or some inputs.
--   Pyramid/Vector.antt: `upsampleVECT` and `downsampleVECT`, on vectors of pixels.
--   Points.antt: `processPixels`, `processPixels2`, `processPixels3`, `splitStream`, `splitStream3` and
--   `splitStream4`.
--   Vectors.antt: `processPixelsVECT`, `processPixels2VECT`, `processPixels3VECT`, their variants for
--   floats, and `splitStreamVECT`, `splitStream3VECT`, `splitStream4VECT`. The bit ranges of a vector
--   are parameters; Vectors/Lanes.antt names the laws that are asked of them: below the size of the
--   vector, with a value cut to the width of its range. Vectors/Bits.antt is the vector of bits that the
--   tests use.
--   Distribute.antt and Collect.antt: `distribute2FIXED` to `distribute16` and `collect2FIXED` to
--   `collect16`, which cut an image into parts for parallel operators and put it together again.
--   Aggregate.antt: `split_L` to `splitF_R`, which turn the vectors of a part into pixels, and `assemble`
--   and `assembleF`, which put pixels together to vectors.
--   Parts.antt: `processL`, `processC` and `processR`, the local operators over the left, an inner and
--   the right part of a distributed image; Parts/Left.antt, Parts/Inner.antt and Parts/Right.antt follow
--   their loops, and Parts/Standing.antt the lines below a part.
--   Deps.antt: `HostDataDeps` and `DependencyTracker` of include/hipacc/Analysis/HostDataDeps.h and
--   lib/Analysis/HostDataDeps.cpp. Deps/Tracker.antt walks over the host program; Deps/Declare.antt has
--   the declarations, Deps/Connect.antt `runKernel`, Deps/Schedule.antt the streams and the schedule, and
--   Deps/Entry.antt the function that is printed. Its calls are those of the operators above.
--   Prelude.antt: the shared names, lists over native numbers, signed integers, and how a run ends.
--
-- An operator is a function from its streams and arrays to an `Outcome`: `done` with the new state,
-- `blocked` when it reads from a stream that delivers no more, `fault` when it indexes an array
-- outside its bounds, `aborted` when an assert fails, `out_of_fuel` when the model's rounds are used
-- up. The input streams are lists of what they deliver, the output streams lists of what has been
-- written. An image is a function of row and column, and arrives line by line. The arrays of an
-- operator are arguments: the source does not initialise them.
--
-- The template arguments MAX_WIDTH, MAX_HEIGHT and KERNEL_SIZE are arguments of the functions, a
-- filter is a function, and the hls streams and their element types are abstract. The asserts are
-- those of a build with ASSERTION_CHECK, which the file defines. The loops are counted, so they
-- recur on the rounds that are left. Widths and heights stay far below the bounds of `int`, and the
-- index arithmetic of `getNewCoords` is done on signed integers without bounds.
--
-- A loop of the repeat mode runs on fuel; it ends if the fuel exceeds the distance to the image,
-- since every round moves the index by at least 1. The statements have the meaning of their printed
-- text, as the compiler prints its kernels; parentheses come only from `createParenExpr`.
--
-- The analysis keeps its objects behind pointers: a pointer is a number in the order of creation.
-- The nested calls of `markSpace` run on fuel, one more than there are processes: an edge leads to a
-- later process, so that a nested call is for an earlier one. A host program is the list of its
-- statements as the front end classifies them; a printed line is kept as its parts.
--
-- Not modelled: the local operators on vectors of pixels, the older vector operators that stand
-- before `process` in the file, the first steps of `addBorderHandling` and the rest of the compiler
-- in lib, which works on the syntax trees of its front end, and the runtimes for other targets.
pub mod Prelude
pub mod Border
pub mod Boundary
pub mod Window
pub mod Local
pub mod Merge
pub mod Pyramid
pub mod Points
pub mod Vectors
pub mod Distribute
pub mod Collect
pub mod Deps
pub mod Parts
pub mod Aggregate
