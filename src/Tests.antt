-- ===== src/Tests.antt =====
-- Tests and concrete instances for the model of the headers of include/art.
mod Samples
mod Nodes
mod Trees
mod Order
mod Maps
mod PrefixTrees
mod KeyTransforms
