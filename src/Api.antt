-- ===== src/Api.antt =====
-- The API types of api/v1alpha1 that the program reads, the conditions of k8s.io/apimachinery and
-- the quantities and floating-point numbers of the libraries.
pub mod Conditions
pub mod Application
pub mod Team
pub mod Numbers
